-- ===== src/Gc/Reachability.antt =====
-- What the references of a store and the extra roots lead to, and that the marking phase of
-- icechunk/src/ops/gc.rs goes over it.
use icechunk.Prelude.{
  ok_inj, ◌≡◌, sym, ap, ◌∙◌, List, [], ◌∷◌, ◌++◌, nat_eq, list_eq, ok, map_err, map_ok, map,
  flat_map, bind-ok, map_err-ok,
}
use mathlib.Core.List.{Memᴰ}
use mathlib.Core.List.Memᴰ
use mathlib.Core.Path.{subst}
use icechunk.Format.{External, SnapshotId}
use icechunk.Refs.{Codec, Ref, RefData, list_refs, ref_fetch}
use icechunk.Snapshot.{Snapshot}
use icechunk.Storage.{Storage}
use icechunk.Gc.{
  GcResult, ref, follow, followed, follow_all, with_parents, all_roots, pointed_snapshots,
}

Memᴰ-flat_map {ℓ κ} :
    {A : Type ℓ} {B : Type κ} (f : A → List B) (x : A) (y : B) (xs : List A)
    → Memᴰ x xs
    → Memᴰ y (f x)
    → Memᴰ y (flat_map f xs)
Memᴰ-flat_map f x y (z ∷ zs) (Memᴰ.head e) n =
    Memᴰ.append_left (flat_map f zs) (subst (λ w. Memᴰ y (f w)) e n)
Memᴰ-flat_map f x y (z ∷ zs) (Memᴰ.tail m) n = Memᴰ.append_right (f z) (Memᴰ-flat_map f x y zs m n)
Memᴰ-flat_map f x y [] m n = elim m [ ]

module _ ⦃E : External⦄ ⦃S : Storage⦄ ⦃C : Codec⦄ (s : S.Store)
    (extra_roots : List SnapshotId) where
  -- A tag or a branch of the store points to the snapshot, or the configuration names it.
  pub data Root : SnapshotId → Type 0 where
    named :
        {refs : List Ref} {r : Ref} {d : RefData} {id : SnapshotId}
        → list_refs s ≡ ok refs
        → Memᴰ r refs
        → ref_fetch r s ≡ ok d
        → id ≡ d.snapshot
        → Root id
    extra : {id : SnapshotId} → Memᴰ id extra_roots → Root id

  -- A root, or a parent in the history of a root
  pub data Reachable (id : SnapshotId) : Type 0 where
    from :
        (root : SnapshotId) (snap : Snapshot)
        → Root root
        → S.fetch_snapshot s root ≡ ok snap
        → Memᴰ id (with_parents root snap)
        → Reachable id

  item : Ref → GcResult SnapshotId
  item r = map_err ref (map_ok RefData.snapshot (ref_fetch r s))

  items : List Ref → List (GcResult SnapshotId)
  items refs = map item refs ++ map ok extra_roots

  item-found : (r : Ref) (d : RefData) → ref_fetch r s ≡ ok d → item r ≡ ok d.snapshot
  unfolding item
  item-found r d h = ap (λ x. map_err ref (map_ok RefData.snapshot x)) h

  root_in_items :
      (id : SnapshotId) (refs : List Ref)
      → list_refs s ≡ ok refs
      → Root id
      → Memᴰ (ok id) (items refs)
  unfolding items
  root_in_items id refs' read (named {refs} {r} {d} listed there found e) =
      Memᴰ.append_left (map ok extra_roots) (
        Memᴰ.cast (ap ok e ∙ sym (item-found r d found))
          (Memᴰ.map item (subst (λ l. Memᴰ r l) (ok_inj refs refs' (sym listed ∙ read)) there)))
  root_in_items id refs' read (extra there) = Memᴰ.append_right (map item refs') (Memᴰ.map ok there)

  root_listed :
      (id : SnapshotId) (roots : List (GcResult SnapshotId))
      → all_roots s extra_roots ≡ ok roots
      → Root id
      → Memᴰ (ok id) roots
  unfolding all_roots items item
  root_listed id roots h root =
      let (refs', (read, e')) =
        bind-ok (map_err ref (list_refs s)) (λ refs. ok (items refs)) roots h in
      subst (λ l. Memᴰ (ok id) l) (ok_inj (items refs') roots e')
        (root_in_items id refs' (map_err-ok ref (list_refs s) refs' read) root)

  -- Everything reachable is among the snapshots that the marking phase goes over.
  pub reachable_listed :
      (id : SnapshotId) (items : List (GcResult SnapshotId))
      → pointed_snapshots s extra_roots ≡ ok items
      → Reachable id
      → Memᴰ (ok id) items
  unfolding pointed_snapshots follow_all
  reachable_listed id listed h (from root snap is_root read there) =
      let (roots, (found, e)) =
        bind-ok (all_roots s extra_roots) (λ roots. ok (follow_all s roots)) listed h in
      subst (λ l. Memᴰ (ok id) l) (ok_inj (follow_all s roots) listed e)
        (Memᴰ-flat_map (follow s) (ok root) (ok id) roots (root_listed root roots found is_root)
          (subst (λ r. Memᴰ (ok id) (followed root r)) (sym read) (Memᴰ.map ok there)))
