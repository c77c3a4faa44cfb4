-- ===== src/JsonTokens/Mirrors.antt =====
-- Maps of the store in memory and of the store in a file that stand for each other.
use mathlib.Core.Option
use mcp_hugo_server_go.Base.{
  ◌≡◌, refl, sym, ap, ◌∙◌, inl, inr, Bool, Option, none, some, Bool-cases,
}
use mcp_hugo_server_go.Base.Keys.{text_eq}
use mcp_hugo_server_go.Base.Map.{
  Map, lookup, insert, remove, keep, keep_if, Unique, lookup-insert, lookup-remove, lookup-keep,
}
use mcp_hugo_server_go.Base.Text.{Text, text_beq}

-- One map holds, under each key, what the other's entry stands for.
abbrev pub Mirrors : {V W : Type 0} → (V → W) → Map Text W → Map Text V → Type 0
Mirrors f m n = (k : Text) → lookup k m ≡ Option.map f (lookup k n)

module _ {V W : Type 0} (f : V → W) (m : Map Text W) (n : Map Text V) where
  pub Mirrors-insert :
      (k : Text) (v : V) → Mirrors f m n → Mirrors f (insert k (f v) m) (insert k v n)
  Mirrors-insert k v h j = elim (Bool-cases (text_beq k j)) [
    | inl same ↦ rw (lookup-insert k j (f v) m, lookup-insert k j v n, same)
    | inr other ↦ rw (lookup-insert k j (f v) m, lookup-insert k j v n, other) (h j)
  ]

  pub Mirrors-remove : (k : Text) → Mirrors f m n → Mirrors f (remove k m) (remove k n)
  Mirrors-remove k h j = elim (Bool-cases (text_beq k j)) [
    | inl same ↦ rw (lookup-remove k j m, lookup-remove k j n, same)
    | inr other ↦ rw (lookup-remove k j m, lookup-remove k j n, other) (h j)
  ]

pub keep_if-map :
    {V W : Type 0} (f : V → W) (p : V → Bool) (q : W → Bool) (o : Option V)
    → ((v : V) → q (f v) ≡ p v)
    → keep_if q (Option.map f o) ≡ Option.map f (keep_if p o)
keep_if-map f p q none h = refl
keep_if-map f p q (some v) h = elim (Bool-cases (p v)) [
  | inl kept ↦ rw (h v, kept)
  | inr gone ↦ rw (h v, gone)
]

pub Mirrors-keep :
    {V W : Type 0} (f : V → W) (p : V → Bool) (q : W → Bool) (m : Map Text W) (n : Map Text V)
    → Unique m
    → Unique n
    → ((v : V) → q (f v) ≡ p v)
    → Mirrors f m n
    → Mirrors f (keep (λ _ w. q w) m) (keep (λ _ v. p v) n)
Mirrors-keep f p q m n um un e h k =
    lookup-keep _ k m um
    ∙ ap (keep_if q) (h k)
    ∙ keep_if-map f p q (lookup k n) e
    ∙ ap (Option.map f) (sym (lookup-keep _ k n un))
