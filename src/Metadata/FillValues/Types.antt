-- ===== src/Metadata/FillValues/Types.antt =====
-- What `from_data_type_and_json` of icechunk/src/metadata/fill_value.rs accepts.
use icechunk.Prelude.{
  ◌≡◌, refl, sym, ap, ℕ, ◌<◌, ◌^◌, ℤ, pos, negsuc, Bool, true, false, Option, none, some, List, [],
  ◌∷◌, Result, ok, ◌>>=◌, bind-ok, ok_inj, try_map, arith, ◌⊎◌, inl, inr, Bool-cases, codes,
  if◌then◌else◌, ◌==◌, list_eq, nat_eq, Str,
}
use mathlib.Core.Path.{subst}
use icechunk.Format.{External}
use icechunk.Metadata.{DataType, FillValue}
use icechunk.Metadata.FillValues.{
  Signed, JsonValue, JsonValues, Float, from_data_type_and_json, get_data_type, fits_i64, fits_u64,
  signed, unsigned, float, part8, byte_of, guarded, accept, Parsed, byte_array, complex, pair64,
  pair128, part32, part64, boolean, text,
}

abbrev AllBytes : List ℕ → Type 0
AllBytes [] = Unit
AllBytes (n ∷ ns) = (n < 256) × AllBytes ns

module _ ⦃E : External⦄ where
  -- The integers in a fill value are those of its type.
  unfoldable pub InRange : FillValue → Type 0
  InRange (FillValue.int8 n) = Signed 7 n
  InRange (FillValue.int16 n) = Signed 15 n
  InRange (FillValue.int32 n) = Signed 31 n
  InRange (FillValue.int64 n) = Signed 63 n
  InRange (FillValue.uint8 n) = n < 2 ^ 8
  InRange (FillValue.uint16 n) = n < 2 ^ 16
  InRange (FillValue.uint32 n) = n < 2 ^ 32
  InRange (FillValue.uint64 n) = n < 2 ^ 64
  InRange (FillValue.bytes ns) = AllBytes ns
  InRange _ = Unit

  abbrev pub IsTyped : DataType → FillValue → Type 0
  IsTyped dt v = (get_data_type v ≡ dt) × InRange v

  either-ok :
      {A X : Type 0} (b : Bool) (a v : A) (r : Result X A)
      → (if b then ok a else r) ≡ ok v
      → (a ≡ v) ⊎ (r ≡ ok v)
  either-ok true a v r h = ground (arith, h)
  either-ok false a v r h = inr h

  accept-some :
      {A : Type 0} (test : A → Bool) (o : Option A) (a : A)
      → accept test o ≡ some a
      → (o ≡ some a) × (test a ≡ true)
  accept-some test none a h = ground (arith, h)
  accept-some test (some b) a h = elim (Bool-cases (test b)) [
    | inl t ↦ ground (arith, h, t)
    | inr f ↦ ground (arith, h, f)
  ]

  guarded-ok :
      {A : Type 0} (dt : DataType) (value : E.Json) (make : A → FillValue) (o : Option A)
      (v : FillValue)
      → guarded dt value make o ≡ ok v
      → (a : A) × ((o ≡ some a) × (make a ≡ v))
  guarded-ok dt value make none v h = ground (arith, h)
  guarded-ok dt value make (some a) v h = (a, (refl, ground (arith, h)))

  module _ ⦃J : JsonValues⦄ where
    open J use {Number, as_i64, as_u64}

    signed-ok :
        (dt : DataType) (value : E.Json) (make : ℤ → FillValue) (w : JsonValue Number E.Json)
        (v : FillValue)
        → signed dt value make w ≡ ok v
        → (i : ℤ) × ((make i ≡ v) × ((fits_i64 dt i ≡ true) × Signed 63 i))
    signed-ok dt value make (JsonValue.number n) v h =
        let (i, (a, e)) = guarded-ok dt value make (accept (fits_i64 dt) (as_i64 n)) v h in
        let (o, t) = accept-some (fits_i64 dt) (as_i64 n) i a in (i, (e, (t, J.as_i64_range n i o)))
    signed-ok dt value make _ v h = ground (arith, h)

    unsigned-ok :
        (dt : DataType) (value : E.Json) (make : ℕ → FillValue) (w : JsonValue Number E.Json)
        (v : FillValue)
        → unsigned dt value make w ≡ ok v
        → (u : ℕ) × ((make u ≡ v) × ((fits_u64 dt u ≡ true) × (u < 2 ^ 64)))
    unsigned-ok dt value make (JsonValue.number n) v h =
        let (u, (a, e)) = guarded-ok dt value make (accept (fits_u64 dt) (as_u64 n)) v h in
        let (o, t) = accept-some (fits_u64 dt) (as_u64 n) u a in (u, (e, (t, J.as_u64_range n u o)))
    unsigned-ok dt value make _ v h = ground (arith, h)

    float-ok :
        {F : Type 0} (f : Float E.F64 F) (dt : DataType) (value : E.Json) (make : F → FillValue)
        (w : JsonValue Number E.Json) (v : FillValue)
        → float f dt value make w ≡ ok v
        → (x : F) × (make x ≡ v)
    float-ok f dt value make (JsonValue.number n) v h =
        let (x, (a, e)) = guarded-ok dt value (λ x. make (f.from_f64 x)) (J.as_f64 n) v h in
        (f.from_f64 x, e)
    float-ok f dt value make (JsonValue.string s) v h =
        elim (either-ok (s == codes "NaN") (make f.nan) v _ h) [
          | inl e ↦ (f.nan, e)
          | inr h ↦ elim (either-ok (s == codes "Infinity") (make f.infinity) v _ h) [
            | inl e ↦ (f.infinity, e)
            | inr h ↦ elim (either-ok (s == codes "-Infinity") (make f.neg_infinity) v _ h) [
              | inl e ↦ (f.neg_infinity, e)
              | inr h ↦ ground (arith, h)
            ]
          ]
        ]
    float-ok f dt value make _ v h = ground (arith, h)

  fits_i64-Signed :
      (dt : DataType) (make : ℤ → FillValue) (v : FillValue)
      → ((i : ℤ) → fits_i64 dt i ≡ true → Signed 63 i → IsTyped dt (make i))
      → (i : ℤ) × ((make i ≡ v) × ((fits_i64 dt i ≡ true) × Signed 63 i))
      → IsTyped dt v
  fits_i64-Signed dt make v f (i, (e, (t, s))) = subst (λ v. IsTyped dt v) e (f i t s)

  fits_u64-bound :
      (dt : DataType) (make : ℕ → FillValue) (v : FillValue)
      → ((u : ℕ) → fits_u64 dt u ≡ true → u < 2 ^ 64 → IsTyped dt (make u))
      → (u : ℕ) × ((make u ≡ v) × ((fits_u64 dt u ≡ true) × (u < 2 ^ 64)))
      → IsTyped dt v
  fits_u64-bound dt make v f (u, (e, (t, s))) = subst (λ v. IsTyped dt v) e (f u t s)

  in8 :
      (i : ℤ)
      → fits_i64 DataType.int8 i ≡ true
      → Signed 63 i
      → IsTyped DataType.int8 (FillValue.int8 i)
  unfolding fits_i64 get_data_type InRange
  in8 (pos n) h s = (refl, ground (arith, h))
  in8 (negsuc n) h s = (refl, ground (arith, h))

  in16 :
      (i : ℤ)
      → fits_i64 DataType.int16 i ≡ true
      → Signed 63 i
      → IsTyped DataType.int16 (FillValue.int16 i)
  unfolding fits_i64 get_data_type InRange
  in16 (pos n) h s = (refl, ground (arith, h))
  in16 (negsuc n) h s = (refl, ground (arith, h))

  in32 :
      (i : ℤ)
      → fits_i64 DataType.int32 i ≡ true
      → Signed 63 i
      → IsTyped DataType.int32 (FillValue.int32 i)
  unfolding fits_i64 get_data_type InRange
  in32 (pos n) h s = (refl, ground (arith, h))
  in32 (negsuc n) h s = (refl, ground (arith, h))

  in_u8 : (u : ℕ) → fits_u64 DataType.uint8 u ≡ true → u < 2 ^ 8
  unfolding fits_u64
  in_u8 u h = ground (arith, h)

  in_u16 : (u : ℕ) → fits_u64 DataType.uint16 u ≡ true → u < 2 ^ 16
  unfolding fits_u64
  in_u16 u h = ground (arith, h)

  in_u32 : (u : ℕ) → fits_u64 DataType.uint32 u ≡ true → u < 2 ^ 32
  unfolding fits_u64
  in_u32 u h = ground (arith, h)

  module _ ⦃J : JsonValues⦄ where
    part8-uint8 :
        (value : E.Json) (v : FillValue)
        → part8 value ≡ ok v
        → (u : ℕ) × ((FillValue.uint8 u ≡ v) × (u < 256))
    part8-uint8 value v h =
        let (u, (e, (t, s))) =
          unsigned-ok DataType.uint8 value FillValue.uint8 (J.view value) v h in
        (u, (e, in_u8 u t))

    byte_of-part8 :
        (value b : E.Json) (v : FillValue) (n : ℕ)
        → part8 b ≡ ok v
        → byte_of value v ≡ ok n
        → n < 256
    byte_of-part8 value b v n h k =
        let (u, (e, l)) = part8-uint8 b v h in ground (arith, ap (byte_of value) e, k, l)

    bytes-AllBytes :
        (value : E.Json) (arr : List E.Json) (bytes : List FillValue) (ns : List ℕ)
        → try_map part8 arr ≡ ok bytes
        → try_map (byte_of value) bytes ≡ ok ns
        → AllBytes ns
    bytes-AllBytes value [] bytes ns h k =
        subst AllBytes
          (ok_inj [] ns
            (subst (λ bs. try_map (byte_of value) bs ≡ ok ns) (sym (ok_inj [] bytes h)) k))
          tt
    bytes-AllBytes value (b ∷ bs) bytes ns h k =
        let (v, (hv, h')) =
          bind-ok (part8 b) (λ y. try_map part8 bs >>= λ ys. ok (y ∷ ys)) bytes h in
        let (vs, (hs, e)) = bind-ok (try_map part8 bs) (λ ys. ok (v ∷ ys)) bytes h' in
        let k' = subst (λ l. try_map (byte_of value) l ≡ ok ns) (sym (ok_inj (v ∷ vs) bytes e)) k in
        let (n, (kn, k'')) =
          bind-ok (byte_of value v) (λ y. try_map (byte_of value) vs >>= λ ys. ok (y ∷ ys)) ns k' in
        let (ms, (km, e')) = bind-ok (try_map (byte_of value) vs) (λ ys. ok (n ∷ ys)) ns k'' in
        subst AllBytes (ok_inj (n ∷ ms) ns e')
          (byte_of-part8 value b v n hv kn, bytes-AllBytes value bs vs ms hs km)

    byte_array-IsTyped :
        (value : E.Json) (w : JsonValue J.Number E.Json) (v : FillValue)
        → byte_array value w ≡ ok v
        → IsTyped DataType.bytes v
    unfolding get_data_type InRange
    byte_array-IsTyped value (JsonValue.array arr) v h =
        let (bytes, (hb, h')) =
          bind-ok (try_map part8 arr)
            (λ bytes. try_map (byte_of value) bytes >>= λ ns. ok (FillValue.bytes ns)) v h in
        let (ns, (hn, e)) =
          bind-ok (try_map (byte_of value) bytes) (λ ns. ok (FillValue.bytes ns)) v h' in
        subst (λ v. IsTyped DataType.bytes v) (ok_inj (FillValue.bytes ns) v e)
          (refl, bytes-AllBytes value arr bytes ns hb hn)
    byte_array-IsTyped value _ v h = ground (arith, h)

    pair64-IsTyped :
        (value : E.Json) (r i v : FillValue)
        → pair64 value r i ≡ ok v
        → IsTyped DataType.complex64 v
    unfolding get_data_type InRange
    pair64-IsTyped value (FillValue.float32 r) (FillValue.float32 i) v h =
        subst (λ v. IsTyped DataType.complex64 v) (ok_inj (FillValue.complex64 r i) v h) (refl, tt)
    pair64-IsTyped value _ _ v h = ground (arith, h)

    pair128-IsTyped :
        (value : E.Json) (r i v : FillValue)
        → pair128 value r i ≡ ok v
        → IsTyped DataType.complex128 v
    unfolding get_data_type InRange
    pair128-IsTyped value (FillValue.float64 r) (FillValue.float64 i) v h =
        subst (λ v. IsTyped DataType.complex128 v) (ok_inj (FillValue.complex128 r i) v h)
          (refl, tt)
    pair128-IsTyped value _ _ v h = ground (arith, h)

    complex-IsTyped :
        (dt : DataType) (value : E.Json) (part : E.Json → Parsed)
        (pair : FillValue → FillValue → Parsed) (w : JsonValue J.Number E.Json) (v : FillValue)
        → ((r i : FillValue) → pair r i ≡ ok v → IsTyped dt v)
        → complex dt value part pair w ≡ ok v
        → IsTyped dt v
    complex-IsTyped dt value part pair (JsonValue.array (a ∷ b ∷ [])) v f h =
        let (r, (_, h')) = bind-ok (part a) (λ r. part b >>= λ i. pair r i) v h in
        let (i, (_, h'')) = bind-ok (part b) (λ i. pair r i) v h' in f r i h''
    complex-IsTyped dt value part pair _ v f h = ground (arith, h)

    made-IsTyped :
        {A : Type 0} (dt : DataType) (make : A → FillValue) (v : FillValue)
        → ((a : A) → IsTyped dt (make a))
        → (a : A) × (make a ≡ v)
        → IsTyped dt v
    made-IsTyped dt make v f (a, e) = subst (λ v. IsTyped dt v) e (f a)

    boolean-ok :
        (value : E.Json) (w : JsonValue J.Number E.Json) (v : FillValue)
        → boolean value w ≡ ok v
        → (b : Bool) × (FillValue.bool b ≡ v)
    boolean-ok value (JsonValue.bool b) v h = (b, ok_inj (FillValue.bool b) v h)
    boolean-ok value _ v h = ground (arith, h)

    text-ok :
        (value : E.Json) (w : JsonValue J.Number E.Json) (v : FillValue)
        → text value w ≡ ok v
        → (s : Str) × (FillValue.string s ≡ v)
    text-ok value (JsonValue.string s) v h = (s, ok_inj (FillValue.string s) v h)
    text-ok value _ v h = ground (arith, h)

    -- A fill value that is read for a data type has this data type, and its integers are in the range
    -- of the type.
    pub from_data_type_and_json-IsTyped :
        (dt : DataType) (value : E.Json) (v : FillValue)
        → from_data_type_and_json dt value ≡ ok v
        → IsTyped dt v
    unfolding from_data_type_and_json get_data_type InRange fits_i64 fits_u64
    from_data_type_and_json-IsTyped DataType.int8 value v h =
        fits_i64-Signed DataType.int8 FillValue.int8 v in8
          (signed-ok DataType.int8 value FillValue.int8 (J.view value) v h)
    from_data_type_and_json-IsTyped DataType.int16 value v h =
        fits_i64-Signed DataType.int16 FillValue.int16 v in16
          (signed-ok DataType.int16 value FillValue.int16 (J.view value) v h)
    from_data_type_and_json-IsTyped DataType.int32 value v h =
        fits_i64-Signed DataType.int32 FillValue.int32 v in32
          (signed-ok DataType.int32 value FillValue.int32 (J.view value) v h)
    from_data_type_and_json-IsTyped DataType.int64 value v h =
        fits_i64-Signed DataType.int64 FillValue.int64 v (λ i t s. (refl, s))
          (signed-ok DataType.int64 value FillValue.int64 (J.view value) v h)
    from_data_type_and_json-IsTyped DataType.uint8 value v h =
        fits_u64-bound DataType.uint8 FillValue.uint8 v (λ u t s. (refl, in_u8 u t))
          (unsigned-ok DataType.uint8 value FillValue.uint8 (J.view value) v h)
    from_data_type_and_json-IsTyped DataType.uint16 value v h =
        fits_u64-bound DataType.uint16 FillValue.uint16 v (λ u t s. (refl, in_u16 u t))
          (unsigned-ok DataType.uint16 value FillValue.uint16 (J.view value) v h)
    from_data_type_and_json-IsTyped DataType.uint32 value v h =
        fits_u64-bound DataType.uint32 FillValue.uint32 v (λ u t s. (refl, in_u32 u t))
          (unsigned-ok DataType.uint32 value FillValue.uint32 (J.view value) v h)
    from_data_type_and_json-IsTyped DataType.uint64 value v h =
        fits_u64-bound DataType.uint64 FillValue.uint64 v (λ u t s. (refl, s))
          (unsigned-ok DataType.uint64 value FillValue.uint64 (J.view value) v h)
    from_data_type_and_json-IsTyped DataType.float16 value v h =
        made-IsTyped DataType.float16 FillValue.float16 v (λ x. (refl, tt))
          (float-ok J.f32 DataType.float16 value FillValue.float16 (J.view value) v h)
    from_data_type_and_json-IsTyped DataType.float32 value v h =
        made-IsTyped DataType.float32 FillValue.float32 v (λ x. (refl, tt))
          (float-ok J.f32 DataType.float32 value FillValue.float32 (J.view value) v h)
    from_data_type_and_json-IsTyped DataType.float64 value v h =
        made-IsTyped DataType.float64 FillValue.float64 v (λ x. (refl, tt))
          (float-ok J.f64 DataType.float64 value FillValue.float64 (J.view value) v h)
    from_data_type_and_json-IsTyped DataType.complex64 value v h =
        complex-IsTyped DataType.complex64 value part32 (pair64 value) (J.view value) v
          (λ r i. pair64-IsTyped value r i v) h
    from_data_type_and_json-IsTyped DataType.complex128 value v h =
        complex-IsTyped DataType.complex128 value part64 (pair128 value) (J.view value) v
          (λ r i. pair128-IsTyped value r i v) h
    from_data_type_and_json-IsTyped DataType.bool value v h =
        made-IsTyped DataType.bool FillValue.bool v (λ b. (refl, tt))
          (boolean-ok value (J.view value) v h)
    from_data_type_and_json-IsTyped DataType.string value v h =
        made-IsTyped DataType.string FillValue.string v (λ s. (refl, tt))
          (text-ok value (J.view value) v h)
    from_data_type_and_json-IsTyped DataType.bytes value v h =
        byte_array-IsTyped value (J.view value) v h
