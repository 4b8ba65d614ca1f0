-- ===== src/Merge/Removal.antt =====
-- Removing the marker file of a pull request whose merge the table has, or that was not merged, keeps
-- the table, the ledger and the markers together.
use gitclub.Base.{
  ℕ, ◌≡◌, ◌⊎◌, inl, inr, ap, subst, ◌∙◌, Str, List, Option, some, arith, ◌==◌, nat_eq, nat_beq_iff,
  str_keys, delete, In-delete, delete-In, Bool-cases,
}
use gitclub.Schema.{Repo, Pull}
use gitclub.Merge.World.{MarkerFile}
use gitclub.Merge.Invariant.{Recorded, Intended, Consistent}

still-Intended :
    (repo : Repo) (pulls : List Pull) (ledger : ℕ → Option Str) (markers : List MarkerFile) (n : ℕ)
    → ((oid : Str) → ledger n ≡ some oid → Recorded repo pulls n oid)
    → Consistent repo pulls ledger markers
    → (id : ℕ) (oid : Str) → ledger id ≡ some oid
    → Intended markers id oid
    → Recorded repo pulls id oid ⊎ Intended (delete (λ f. f.file_pull == n) markers) id oid
still-Intended repo pulls ledger markers n done v id oid l i =
    let (name, _) = v.markers_named i.file i.marker i.stored i.parsed in
    elim (Bool-cases (i.file.file_pull == n)) [
      | inl t ↦
          let e : n ≡ id = omega (arith, (nat_beq_iff i.file.file_pull n).0 t, i.same_id) in
          inl (subst (λ k. Recorded repo pulls k oid) e (done oid (ap ledger e ∙ l)))
      | inr t ↦ inr (record {
        file = i.file;
        marker = i.marker;
        stored = delete-In (λ (f : MarkerFile). f.file_pull == n) i.file markers i.stored t;
        parsed = i.parsed;
        same_id = i.same_id;
        same_oid = i.same_oid;
      })
    ]

pub remove-Consistent :
    (repo : Repo) (pulls : List Pull) (ledger : ℕ → Option Str) (markers : List MarkerFile) (n : ℕ)
    → ((oid : Str) → ledger n ≡ some oid → Recorded repo pulls n oid)
    → Consistent repo pulls ledger markers
    → Consistent repo pulls ledger (delete (λ f. f.file_pull == n) markers)
remove-Consistent repo pulls ledger markers n done v = record {
  unique_pulls = v.unique_pulls;
  unmerged_blank = v.unmerged_blank;
  no_lost_merge = λ id oid l. elim (v.no_lost_merge id oid l) [
    | inl r ↦ inl r
    | inr i ↦ still-Intended repo pulls ledger markers n done v id oid l i
  ];
  no_false_merge = v.no_false_merge;
  markers_named =
      λ f m f_in. v.markers_named f m (In-delete (λ f. f.file_pull == n) f markers f_in).0;
  markers_agree =
      λ f m f_in. v.markers_agree f m (In-delete (λ f. f.file_pull == n) f markers f_in).0;
}
