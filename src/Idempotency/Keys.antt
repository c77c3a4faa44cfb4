-- ===== src/Idempotency/Keys.antt =====
-- Keys that are accepted, and the names under which results are kept.
use mcp_hugo_server_go.Base.{
  ℕ, suc, ◌≤◌, ◌≡◌, ◌≢◌, refl, ◌⊎◌, inl, inr, true, [], ◌∷◌, ◌++◌, none, arith, Bool-cases, All,
  length, and_true,
}
use mcp_hugo_server_go.Base.Keys.{text_eq}
use mcp_hugo_server_go.Base.Text.{Text, trim_space, byte_length, text_beq, text_beq_iff}
use mcp_hugo_server_go.Idempotency.{
  is_key_char, all_key_chars, validate_key, max_key_length, cache_key,
}

-- No NUL character.
abbrev pub NoNul : Text → Type 0
NoNul = All (λ c. c ≢ 0)

append_nul_split :
    (a b x y : Text) → NoNul a → NoNul b → a ++ (0 ∷ x) ≡ b ++ (0 ∷ y) → (a ≡ b) × (x ≡ y)
append_nul_split [] [] x y na nb e = (refl, cc)
append_nul_split [] (d ∷ b) x y na nb e = absurd (nb.0 (cc))
append_nul_split (c ∷ a) [] x y na nb e = absurd (na.0 (cc))
append_nul_split (c ∷ a) (d ∷ b) x y na nb e =
    let (same, rest) = append_nul_split a b x y na.1 nb.1 (cc) in (cc, rest)

-- Where the caller's identity and the tool's name hold no NUL, results are kept apart by caller,
-- tool and key.
pub cache_key-injective :
    (caller tool key caller' tool' key' : Text)
    → NoNul caller
    → NoNul caller'
    → NoNul tool
    → NoNul tool'
    → cache_key caller tool key ≡ cache_key caller' tool' key'
    → (caller ≡ caller') × (tool ≡ tool') × (key ≡ key')
unfolding cache_key
cache_key-injective caller tool key caller' tool' key' nc nc' nt nt' e =
    let (same_caller, rest) = append_nul_split caller caller' _ _ nc nc' e in
    let (same_tool, same_key) = append_nul_split tool tool' _ _ nt nt' rest in
    (same_caller, same_tool, same_key)

-- Letters, digits, `-` and `_` of ASCII.
abbrev pub IsKeyChar : ℕ → Type 0
IsKeyChar c = is_key_char c ≡ true

one_byte :
    (c : ℕ) (s : Text)
    → is_key_char c ≡ true
    → byte_length s ≡ length s
    → byte_length (c ∷ s) ≡ suc (length s)
unfolding byte_length is_key_char
one_byte c s h e = ground arith

key_chars_length :
    (s : Text) → all_key_chars s ≡ true → All IsKeyChar s × (byte_length s ≡ length s)
unfolding all_key_chars
key_chars_length [] h = (tt, unfold byte_length in refl)
key_chars_length (c ∷ s) h =
    let (here, rest) = and_true (is_key_char c) (all_key_chars s) h in
    let (a, n) = key_chars_length s rest in ((here, a), one_byte c s here n)

-- An accepted key is blank, or it has at most 128 characters, all of them ASCII letters, digits,
-- `-`
-- or `_`.
pub validate_key_sound :
    (key : Text)
    → validate_key key ≡ none
    → (trim_space key ≡ []) ⊎ (All IsKeyChar key × (length key ≤ max_key_length))
unfolding validate_key
validate_key_sound key h = elim (Bool-cases (text_beq (trim_space key) [])) [
  | inl blank ↦ inl ((text_beq_iff (trim_space key) []).0 blank)
  | inr more ↦ elim (Bool-cases (all_key_chars key)) [
    | inl good ↦ let (a, n) = key_chars_length key good in inr (a, ground arith)
    | inr bad ↦ absurd (ground arith)
  ]
]
