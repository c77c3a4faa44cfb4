-- ===== src/Idempotency/Recall.antt =====
-- What `replay` finds after `remember`.
use mathlib.Core.Path.{subst}
use mcp_hugo_server_go.Base.{
  ℕ, ◌+◌, ◌≤◌, ◌<◌, ◌≡◌, ◌≢◌, refl, sym, ap, ◌∙◌, ◌⊎◌, inl, inr, Bool, true, false, not, [], Option,
  none, some, arith, Bool-cases, Option-cases, length, nat_beq, ltb, if◌then◌else◌,
}
use mcp_hugo_server_go.Base.Keys.{text_eq}
use mcp_hugo_server_go.Base.Map.{
  Map, lookup, insert, keep_if, Unique, lookup-insert, lookup-keep, keep-Unique, insert-Unique,
  lookup-insert_self,
}
use mcp_hugo_server_go.Base.Result.{ok, err, >>=-eq-ok}
use mcp_hugo_server_go.Base.Text.{Text, text_beq, text_beq_iff, text_beq_refl}
use mcp_hugo_server_go.Idempotency.{
  Entry, conflict, Journal, Json, Store, prune, cache_key, answer, answer_option, replay,
  replay_cached, replay_journal, remember, remember_cached, remember_journal, remember_raw,
}
use mcp_hugo_server_go.Idempotency.Trim.{
  length-trim, trim-subset, trim-newest, trim-Unique, IsNewest,
}

prune-Unique : (ttl now : ℕ) (m : Map Text Entry) → Unique m → Unique (prune ttl now m)
unfolding prune
prune-Unique ttl now m u = elim (Bool-cases (nat_beq ttl 0)) [
  | inl off ↦ rw off u
  | inr on ↦ rw on (keep-Unique _ m u)
]

abbrev alive : ℕ → ℕ → Entry → Bool
alive ttl now e = if nat_beq ttl 0 then true else not (ltb (e.created_at + ttl) now)

all_alive : (ttl now : ℕ) (o : Option Entry) → nat_beq ttl 0 ≡ true → o ≡ keep_if (alive ttl now) o
all_alive ttl now none off = refl
all_alive ttl now (some e) off = ground arith

young_alive :
    (ttl now : ℕ) (o : Option Entry)
    → nat_beq ttl 0 ≡ false
    → keep_if (λ e. not (ltb (e.created_at + ttl) now)) o ≡ keep_if (alive ttl now) o
young_alive ttl now none on = refl
young_alive ttl now (some e) on = ground arith

lookup-prune :
    (ttl now : ℕ) (m : Map Text Entry) (k : Text)
    → Unique m
    → lookup k (prune ttl now m) ≡ keep_if (alive ttl now) (lookup k m)
lookup-prune ttl now m k u = elim (Bool-cases (nat_beq ttl 0)) [
  | inl off ↦ off_lem off ∙ all_alive ttl now (lookup k m) off
  | inr on ↦ on_lem on ∙ young_alive ttl now (lookup k m) on
]
  where
    off_lem : nat_beq ttl 0 ≡ true → lookup k (prune ttl now m) ≡ lookup k m
    off_lem off = unfold prune in rw off

    on_lem :
        nat_beq ttl 0 ≡ false
        → lookup k (prune ttl now m)
          ≡ keep_if (λ e. not (ltb (e.created_at + ttl) now)) (lookup k m)
    on_lem on =
        unfold prune in rw on (lookup-keep (λ _ e. not (ltb (e.created_at + ttl) now)) k m u)

pruned_subset :
    (ttl now : ℕ) (o : Option Entry) (e : Entry)
    → keep_if (alive ttl now) o ≡ some e
    → (o ≡ some e) × (alive ttl now e ≡ true)
pruned_subset ttl now none e h = absurd (cc)
pruned_subset ttl now (some x) e h = elim (Bool-cases (alive ttl now x)) [
  | inl a ↦ let same : x ≡ e = ground arith in (ap some same, ap (alive ttl now) (sym same) ∙ a)
  | inr dead ↦ absurd (ground arith)
]

module _ {J A : Type 0} (journal : Journal J) (json : Json A) where
  open json use {encode, decode}

  -- The entries after `remember`, on a store without a database.
  remembered_lem :
      (s : Store J) (caller tool key hash raw : Text) (out : A) (now : ℕ)
      → s.persistent ≡ none
      → key ≢ []
      → encode out ≡ some raw
      → remember journal json s caller tool key hash out now
        ≡ ok (remember_cached journal json s caller tool key hash raw now)
  unfolding remember
  remembered_lem s caller tool key hash raw out now np ne enc =
      let filled : text_beq key [] ≡ false = ground (arith, text_beq_iff key []) in
      rw (filled, enc, np)

  module _ (s : Store J) (caller tool key hash raw : Text) (now : ℕ) (u : Unique s.entries) where
    abbrev k : Text
    k = cache_key caller tool key

    abbrev new_entry : Entry
    new_entry = record { request_hash = hash; result_json = raw; created_at = now }

    abbrev after : Map Text Entry
    after = (remember_cached journal json s caller tool key hash raw now).entries

    after-Unique : Unique after
    unfolding remember_cached
    after-Unique =
        trim-Unique s.max_entries _
          (insert-Unique k new_entry _ (prune-Unique s.ttl now s.entries u))

    newest :
        ((j : Text) (f : Entry) → lookup j s.entries ≡ some f → f.created_at < now)
        → IsNewest k new_entry (insert k new_entry (prune s.ttl now s.entries))
    newest older j f h differ =
        let h' : lookup j (prune s.ttl now s.entries) ≡ some f =
          ground
            (arith, lookup-insert k j new_entry (prune s.ttl now s.entries), text_beq_iff k j) in
        older j f
          (pruned_subset s.ttl now (lookup j s.entries) f
            (sym (lookup-prune s.ttl now s.entries j u) ∙ h')).0

    lookup-after :
        ((j : Text) (f : Entry) → lookup j s.entries ≡ some f → f.created_at < now)
        → lookup k after ≡ some new_entry
    unfolding remember_cached
    lookup-after older =
        trim-newest s.max_entries _ k new_entry
          (insert-Unique k new_entry _ (prune-Unique s.ttl now s.entries u))
          (lookup-insert_self k new_entry (prune s.ttl now s.entries)) (newest older)

    after-other :
        (j : Text) (f : Entry) → j ≢ k → lookup j after ≡ some f → lookup j s.entries ≡ some f
    unfolding remember_cached
    after-other j f differ h =
        let h' = trim-subset s.max_entries (insert k new_entry (prune s.ttl now s.entries)) j f h in
        let h'' : lookup j (prune s.ttl now s.entries) ≡ some f =
          ground
            (arith, lookup-insert k j new_entry (prune s.ttl now s.entries), text_beq_iff k j) in
        (pruned_subset s.ttl now (lookup j s.entries) f
          (sym (lookup-prune s.ttl now s.entries j u) ∙ h'')).0

  -- What `replay` answers on a store without a database, at a key that is not empty.
  replay_lem :
      (s : Store J) (caller tool key hash : Text) (now : ℕ)
      → s.persistent ≡ none
      → key ≢ []
      → (replay journal json s caller tool key hash now).1
        ≡ answer_option journal json hash
            (lookup (cache_key caller tool key) (prune s.ttl now s.entries))
  unfolding replay replay_journal replay_cached
  replay_lem s caller tool key hash now np ne =
      let filled : text_beq key [] ≡ false = ground (arith, text_beq_iff key []) in rw (filled, np)

  -- On a store without a database whose entries are all older: a result that is remembered is
  -- replayed by the same request as long as it has not expired, and another request under the same
  -- key is refused as a conflict.
  pub replay-remember :
      (s : Store J) (caller tool key hash hash' raw : Text) (out : A) (now later : ℕ)
      → s.persistent ≡ none
      → Unique s.entries
      → ((j : Text) (f : Entry) → lookup j s.entries ≡ some f → f.created_at < now)
      → key ≢ []
      → encode out ≡ some raw
      → decode raw ≡ some out
      → (s.ttl ≡ 0) ⊎ (later ≤ now + s.ttl)
      → hash' ≢ hash
      → (s' : Store J) × (remember journal json s caller tool key hash out now ≡ ok s')
        × ((replay journal json s' caller tool key hash later).1 ≡ ok (some out))
        × ((replay journal json s' caller tool key hash' later).1 ≡ err conflict)
  replay-remember s caller tool key hash hash' raw out now later np u older ne enc dec fresh
        differ =
      let s' = remember_cached journal json s caller tool key hash raw now in
      let np' : s'.persistent ≡ none = unfold remember_cached in np in
      let e : Entry = record { request_hash = hash; result_json = raw; created_at = now } in
      let young : alive s'.ttl later e ≡ true = unfold remember_cached in ground arith in
      let found : lookup (cache_key caller tool key) (prune s'.ttl later s'.entries) ≡ some e =
        lookup-prune s'.ttl later s'.entries (cache_key caller tool key)
          (after-Unique s caller tool key hash raw now u)
        ∙ ap (keep_if (alive s'.ttl later)) (lookup-after s caller tool key hash raw now u older)
        ∙ ap (λ (b : Bool). if b then some e else none) young in
      (
        s',
        remembered_lem s caller tool key hash raw out now np ne enc,
        replay_lem s' caller tool key hash later np' ne
            ∙ ap (answer_option journal json hash) found
            ∙ (unfold answer in rw (text_beq_refl hash, dec)),
        replay_lem s' caller tool key hash' later np' ne
            ∙ ap (answer_option journal json hash') found
            ∙ (unfold answer in ground (arith, text_beq_iff hash hash')),
      )

  -- The journal is written to, and the rest of the store stays.
  journal-same :
      (s t : Store J) (caller tool key hash raw : Text)
      → remember_journal journal json s caller tool key hash raw ≡ ok t
      → (t.entries ≡ s.entries) × (t.max_entries ≡ s.max_entries)
  journal-same s t caller tool key hash raw h = elim (Option-cases s.persistent) [
    | inl np ↦ ground (arith, np)
    | inr (j, p) ↦
        let (j', e, done) =
          >>=-eq-ok (journal.remember_mutation j caller tool key hash raw)
            (λ j'. ok (record s { persistent = some j' })) (rw p at h) in
        ground arith
  ]

  -- Where the bound is positive, every key has one entry, and the call's key is not empty, the store
  -- holds at most its bound of entries after a `remember` that succeeds, with a database or without.
  pub length-remember :
      (s s' : Store J) (caller tool key hash : Text) (out : A) (now : ℕ)
      → Unique s.entries
      → key ≢ []
      → 0 < s.max_entries
      → remember journal json s caller tool key hash out now ≡ ok s'
      → length s'.entries ≤ s.max_entries
  unfolding remember
  length-remember s s' caller tool key hash out now u ne pos h =
      let filled : text_beq key [] ≡ false = ground (arith, text_beq_iff key []) in
      bounded (encode out) (rw filled at h)
    where
      cached :
          (t : Store J) (raw : Text)
          → t.entries ≡ s.entries
          → t.max_entries ≡ s.max_entries
          → length (remember_cached journal json t caller tool key hash raw now).entries
            ≤ s.max_entries
      cached t raw same bound =
          unfold remember_cached in
          rw (same, bound)
            (length-trim s.max_entries _ pos
              (insert-Unique _ _ _ (prune-Unique t.ttl now s.entries u)))

      bounded :
          (o : Option Text)
          → remember_raw journal json s caller tool key hash now o ≡ ok s'
          → length s'.entries ≤ s.max_entries
      bounded none k = absurd (cc)
      bounded (some raw) k =
          let (t, stored, done) =
            >>=-eq-ok (remember_journal journal json s caller tool key hash raw) _ k in
          let (same, bound) = journal-same s t caller tool key hash raw stored in
          let e : remember_cached journal json t caller tool key hash raw now ≡ s' = ground arith in
          subst (λ (r : Store J). length r.entries ≤ s.max_entries) e (cached t raw same bound)

  -- A result that one caller remembers is no hit for another caller, tool or key: on a store
  -- without
  -- a database, what another cache key replays afterwards it replayed before.
  pub remember_isolated :
      (s s' : Store J) (caller tool key hash raw : Text) (out : A) (now later : ℕ)
      (caller' tool' key' hash' : Text) (a : A)
      → s.persistent ≡ none
      → Unique s.entries
      → key ≢ []
      → key' ≢ []
      → encode out ≡ some raw
      → cache_key caller' tool' key' ≢ cache_key caller tool key
      → remember journal json s caller tool key hash out now ≡ ok s'
      → (replay journal json s' caller' tool' key' hash' later).1 ≡ ok (some a)
      → (replay journal json s caller' tool' key' hash' later).1 ≡ ok (some a)
  remember_isolated s s' caller tool key hash raw out now later caller' tool' key' hash' a np u ne
        ne' enc other done hit =
      let k = cache_key caller' tool' key' in
      let t = remember_cached journal json s caller tool key hash raw now in
      let same : t ≡ s' =
        ground (arith, remembered_lem s caller tool key hash raw out now np ne enc) in
      let np' : t.persistent ≡ none = unfold remember_cached in np in
      let hit' =
        sym (replay_lem t caller' tool' key' hash' later np' ne')
        ∙ subst
            (λ (r : Store J).
              (replay journal json r caller' tool' key' hash' later).1 ≡ ok (some a))
            (sym same) hit in
      elim (Option-cases (lookup k (prune t.ttl later t.entries))) [
        | inl miss ↦ absurd (ground arith)
        | inr (e, found) ↦
            let (there, young) = pruned_subset t.ttl later (lookup k t.entries) e (
              sym (
                lookup-prune t.ttl later t.entries k
                  (after-Unique s caller tool key hash raw now u))
              ∙ found) in
            let before = after-other s caller tool key hash raw now u k e other there in
            let young' : alive s.ttl later e ≡ true = unfold remember_cached in young in
            let found' : lookup k (prune s.ttl later s.entries) ≡ some e =
              lookup-prune s.ttl later s.entries k u
              ∙ ap (keep_if (alive s.ttl later)) before
              ∙ ap (λ (b : Bool). if b then some e else none) young' in
            replay_lem s caller' tool' key' hash' later np ne'
            ∙ ap (answer_option journal json hash') (found' ∙ sym found)
            ∙ hit'
      ]
