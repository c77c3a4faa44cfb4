-- ===== src/Upload/Reach.antt =====
-- The stores that calls can reach from an empty one.
use mcp_hugo_server_go.Base.{ℕ, ◌<◌, List, [], ◌∷◌, Option, Bool, length, All}
use mcp_hugo_server_go.Base.Keys.{text_eq}
use mcp_hugo_server_go.Base.Map.{lookup}
use mcp_hugo_server_go.Base.Text.{Text}
use mcp_hugo_server_go.Upload.{
  Bytes, UploadStore, BeginRequest, WriteOutcome, new_store, begin, append_chunk, get, consume,
  abandon,
}
use mcp_hugo_server_go.Upload.Disk.{IsValid}
use mcp_hugo_server_go.Upload.Chunks.{IsClean, append_chunk-IsValid}
use mcp_hugo_server_go.Upload.Begin.{begin-IsValid, settle-IsValid}

pub data UploadCall : Type 0 where
  call_begin : BeginRequest → Option Text → Bool → ℕ → UploadCall
  call_chunk : Text → Text → ℕ → Bytes → ℕ → WriteOutcome → UploadCall
  call_get call_consume call_abandon : Text → Text → ℕ → UploadCall

-- A chunk is not empty, as the handler demands, and no write breaks off.
abbrev pub IsProper : UploadCall → Type 0
IsProper (call_begin r id can now) = Unit
IsProper (call_chunk id caller offset bytes now io) = (0 < length bytes) × IsClean io
IsProper (call_get id caller now) = Unit
IsProper (call_consume id caller now) = Unit
IsProper (call_abandon id caller now) = Unit

module _ (revision : Bytes → Text) where
  abbrev pub after_call : UploadStore → UploadCall → UploadStore
  after_call s (call_begin r id can now) = (begin s r id can now).0
  after_call s (call_chunk id caller offset bytes now io) =
      (append_chunk revision s id caller offset bytes now io).0
  after_call s (call_get id caller now) = (get s id caller now).0
  after_call s (call_consume id caller now) = (consume s id caller now).0
  after_call s (call_abandon id caller now) = abandon s id caller now

  unfoldable pub after_calls : UploadStore → List UploadCall → UploadStore
  after_calls s [] = s
  after_calls s (c ∷ cs) = after_calls (after_call s c) cs

  after_call-IsValid :
      (s : UploadStore) (c : UploadCall)
      → IsProper c
      → IsValid revision s
      → IsValid revision (after_call s c)
  after_call-IsValid s (call_begin r id can now) h v = begin-IsValid revision s r id can now v
  after_call-IsValid s (call_chunk id caller offset bytes now io) (h, clean) v =
      append_chunk-IsValid revision s id caller offset bytes now io v h clean
  after_call-IsValid s (call_get id caller now) h v = (settle-IsValid revision s id caller now v).0
  after_call-IsValid s (call_consume id caller now) h v =
      (settle-IsValid revision s id caller now v).1
  after_call-IsValid s (call_abandon id caller now) h v =
      (settle-IsValid revision s id caller now v).2

  after_calls-IsValid :
      (s : UploadStore) (cs : List UploadCall)
      → All IsProper cs
      → IsValid revision s
      → IsValid revision (after_calls s cs)
  unfolding after_calls
  after_calls-IsValid s [] h v = v
  after_calls-IsValid s (c ∷ cs) (h, hs) v =
      after_calls-IsValid (after_call s c) cs hs (after_call-IsValid s c h v)

  new_store-IsValid : (ttl : ℕ) → IsValid revision (new_store ttl)
  unfolding lookup
  new_store-IsValid ttl = record {
    keyed = record { unique = tt; separate = λ i j e f h. absurd (cc h) };
    each = λ id e h. absurd (cc h);
  }

  -- Whatever calls follow one another from an empty store, where no chunk is empty and no write
  -- breaks off: identifiers are unique, no two uploads share a staging file, and the staging file of
  -- each upload holds what was received, which is at most what was declared, with each chunk on
  -- record at its offset.
  pub calls-IsValid :
      (ttl : ℕ) (cs : List UploadCall)
      → All IsProper cs
      → IsValid revision (after_calls (new_store ttl) cs)
  calls-IsValid ttl cs h = after_calls-IsValid (new_store ttl) cs h (new_store-IsValid ttl)
