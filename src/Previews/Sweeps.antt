-- ===== src/Previews/Sweeps.antt =====
-- What a sweep leaves.
use mcp_hugo_server_go.Base.{
  ℕ, ◌≡◌, refl, ap, ◌∙◌, inl, inr, Bool, true, false, not, ◌&&◌, ◌||◌, List, [], ◌∷◌, ◌++◌, Option,
  none, arith, Bool-cases, Option-cases, if◌then◌else◌,
}
use mcp_hugo_server_go.Base.Keys.{text_eq, ◌==◌}
use mcp_hugo_server_go.Base.Map.{Map, Unique, lookup, remove, lookup-remove, keep_if}
use mcp_hugo_server_go.Base.Text.{Text}
use mcp_hugo_server_go.Previews.{PreviewEntry, PreviewStore, LeaseDb, is_expired, delete_lease}
use mcp_hugo_server_go.Previews.Manage.{sweep_loop, swept, sweep}

expired_in : ℕ → Text → Map Text PreviewEntry → Bool
expired_in now id [] = false
expired_in now id ((j, e) ∷ m) = (is_expired now e && (j == id)) || expired_in now id m

not_there :
    (now : ℕ) (id : Text) (m : Map Text PreviewEntry)
    → lookup id m ≡ none
    → expired_in now id m ≡ false
unfolding lookup expired_in
not_there now id [] h = refl
not_there now id ((j, e) ∷ m) h = ground (arith, not_there now id m)

left_of :
    (now : ℕ) (id : Text) (m : Map Text PreviewEntry)
    → Unique m
    → (if expired_in now id m then none else lookup id m)
      ≡ keep_if (λ e. not (is_expired now e)) (lookup id m)
unfolding lookup expired_in
left_of now id [] u = refl
left_of now id ((j, e) ∷ m) u =
    ground (arith, left_of now id m u.1, not_there now id m, text_eq.same_iff j id)

merge :
    (a b : Bool) (o : Option PreviewEntry)
    → (if b then none else (if a then none else o)) ≡ (if a || b then none else o)
merge a b o = ground arith

module _ {D : Type 0} (database : LeaseDb D) (now : ℕ) (id : Text) where
  loop_leaves :
      (todo : Map Text PreviewEntry) (s : PreviewStore D) (gone : List Text)
      → (sweep_loop database now todo s gone).2 ≡ true
      → lookup id (sweep_loop database now todo s gone).0.entries
        ≡ (if expired_in now id todo then none else lookup id s.entries)
  unfolding expired_in sweep_loop
  loop_leaves [] s gone h = refl
  loop_leaves ((j, e) ∷ todo) s gone h = elim (Bool-cases (is_expired now e)) [
    | inr x ↦ rw (x, sweep_loop) (loop_leaves todo s gone (rw (x, sweep_loop) at h))
    | inl x ↦ elim (Option-cases (delete_lease database s.state_db j)) [
      | inl y ↦ absurd (cc (rw (x, y, sweep_loop) at h))
      | inr (db, y) ↦
          rw (x, y, sweep_loop)
            (loop_leaves todo (record s { entries = remove j s.entries; state_db = db })
                (gone ++ (e.dir ∷ [])) (rw (x, y, sweep_loop) at h)
              ∙ ap (λ o. if expired_in now id todo then none else o) (lookup-remove j id s.entries)
              ∙ merge (j == id) (expired_in now id todo) (lookup id s.entries))
    ]
  ]

  swept_done :
      (r : PreviewStore D × List Text × Bool)
      → (swept database r).1 ≡ true
      → (r.2 ≡ true) × ((swept database r).0.entries ≡ r.0.entries)
  swept_done (s, gone, true) h = (refl, refl)
  swept_done (s, gone, false) h = absurd (cc h)

  -- A sweep that succeeds leaves exactly the previews that have not expired, where every id has one
  -- entry.
  pub sweep_exact :
      (s : PreviewStore D)
      → Unique s.entries
      → (sweep database s now).1 ≡ true
      → lookup id (sweep database s now).0.entries
        ≡ keep_if (λ e. not (is_expired now e)) (lookup id s.entries)
  unfolding sweep
  sweep_exact s u h =
      let r = sweep_loop database now s.entries s [] in
      let (done, same) = swept_done r h in
      ap (lookup id) same ∙ loop_leaves s.entries s [] done ∙ left_of now id s.entries u
