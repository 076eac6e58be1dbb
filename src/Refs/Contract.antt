-- ===== src/Refs/Contract.antt =====
-- What the refs ask of a store: documented behaviour of reading, listing and conditionally writing
-- files by name.
use icechunk.Prelude.{
  ◌≡◌, Bool, false, Option, none, some, List, [], ◌∷◌, ◌++◌, Str, codes, nat_eq, list_eq, ◌==◌,
  list_lt, ok, err, map, if◌then◌else◌,
}
use icechunk.Format.{External, Bytes}
use icechunk.Storage.{Storage, ref_already_exists, ref_not_found}

-- A new name in a list of names in order
abbrev pub insert_name : Str → List Str → List Str
insert_name x [] = x ∷ []
insert_name x (y ∷ ys) =
    let rest = insert_name x ys in
    if x == y then y ∷ ys else if list_lt x y then x ∷ y ∷ ys else y ∷ rest

module _ ⦃E : External⦄ ⦃S : Storage⦄ where
  open S use {Store, get_ref, write_ref, ref_versions}

  -- The file of a reference, if there is one
  pub record RefFiles : Type 0 where
    pub file : Store → Str → Option Bytes
    pub names : Store → Str → List Str
    pub get_found : (s : Store) (key : Str) (b : Bytes) → file s key ≡ some b → get_ref s key ≡ ok b
    pub get_missing :
        (s : Store) (key : Str) → file s key ≡ none → get_ref s key ≡ err (ref_not_found key)
    -- A listing gives the names below a prefix, in their order.
    pub versions : (s : Store) (root : Str) → ref_versions s root ≡ ok (map ok (names s root))
    -- A write succeeds if the file is absent or may be overwritten.
    pub write_absent :
        (s : Store) (key : Str) (overwrite : Bool) (b : Bytes)
        → file s key ≡ none
        → (write_ref s key overwrite b).0 ≡ ok tt
    pub write_present :
        (s : Store) (key : Str) (b old : Bytes)
        → file s key ≡ some old
        → write_ref s key false b ≡ (err (ref_already_exists key), s)
    -- After a write that succeeds, the file is there and no other file has changed.
    pub file_after :
        (s : Store) (key : Str) (overwrite : Bool) (b : Bytes)
        → (write_ref s key overwrite b).0 ≡ ok tt
        → (key' : Str)
        → file (write_ref s key overwrite b).1 key' ≡ (if key == key' then some b else file s key')
    -- The name that was written is listed.
    pub names_after :
        (s : Store) (root name : Str) (overwrite : Bool) (b : Bytes)
        → (write_ref s (root ++ (codes "/" ++ name)) overwrite b).0 ≡ ok tt
        → names (write_ref s (root ++ (codes "/" ++ name)) overwrite b).1 root
          ≡ insert_name name (names s root)
