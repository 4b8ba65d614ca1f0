-- ===== src/Merge/Torn.antt =====
-- A marker that was not written whole keeps the invariant.
use gitclub.Base.{ℕ, ◌≡◌, inl, inr, ap, ◌∷◌, none, some, nat_eq, str_keys}
use gitclub.Schema.{Repo}
use gitclub.Merge.World.{Marker, MarkerFile, World}
use gitclub.Merge.Invariant.{Inv}

abbrev pub torn : ℕ → World → World
torn n w = record w { markers = record { file_pull = n; content = none } ∷ w.markers }

module _ (repo : Repo) where
  no_marker :
      (n : ℕ) (m : Marker) (f : MarkerFile)
      → ◌≡◌ {A = MarkerFile} (record { file_pull = n; content = none }) f
      → f.content ≡ some m
      → ⊥
  no_marker n m f e c = cc (ap (λ (g : MarkerFile). g.content) e, c)

  pub torn-Inv : (n : ℕ) (w : World) → Inv repo w → Inv repo (torn n w)
  torn-Inv n w v = record {
    unique_pulls = v.unique_pulls;
    unmerged_blank = v.unmerged_blank;
    no_lost_merge = λ id oid l. elim (v.no_lost_merge id oid l) [
      | inl r ↦ inl r
      | inr i ↦ inr (record {
        file = i.file;
        marker = i.marker;
        stored = inr i.stored;
        parsed = i.parsed;
        same_id = i.same_id;
        same_oid = i.same_oid;
      })
    ];
    no_false_merge = v.no_false_merge;
    markers_named = λ f m f_in c. elim f_in [
      | inl e ↦ absurd (no_marker n m f e c)
      | inr f_in' ↦ v.markers_named f m f_in' c
    ];
    markers_agree = λ f m f_in c. elim f_in [
      | inl e ↦ absurd (no_marker n m f e c)
      | inr f_in' ↦ v.markers_agree f m f_in' c
    ];
  }
