-- ===== src/Upload/Slice.antt =====
-- Slices of a file that grows at its end.
use mcp_hugo_server_go.Base.{
  ℕ, zero, suc, ◌+◌, ◌≤◌, ◌≡◌, refl, ap, [], ◌∷◌, ◌++◌, arith, length, take,
}
use mcp_hugo_server_go.Upload.{Bytes}
use mcp_hugo_server_go.Upload.Disk.{slice}

take-append : (n : ℕ) (b c : Bytes) → n ≤ length b → take n (b ++ c) ≡ take n b
take-append zero b c h = refl
take-append (suc n) [] c h = absurd (omega arith)
take-append (suc n) (x ∷ b) c h = ap (◌∷◌ x) (take-append n b c (omega arith))

pub slice_old : (o n : ℕ) (b c : Bytes) → o + n ≤ length b → slice o n (b ++ c) ≡ slice o n b
slice_old zero n b c h = take-append n b c (omega arith)
slice_old (suc o) zero [] c h = absurd (omega arith)
slice_old (suc o) (suc n) [] c h = absurd (omega arith)
slice_old (suc o) n (x ∷ b) c h = slice_old o n b c (omega arith)

take_all : (c : Bytes) → take (length c) c ≡ c
take_all [] = refl
take_all (x ∷ c) = ap (◌∷◌ x) (take_all c)

pub slice_new : (b c : Bytes) → slice (length b) (length c) (b ++ c) ≡ c
slice_new [] c = take_all c
slice_new (x ∷ b) c = slice_new b c
