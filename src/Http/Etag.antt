-- ===== src/Http/Etag.antt =====
-- varnish-sys/src/vcl/http.rs: `weaken_etag`.
use varnish_rs.Prelude.{Option, none, some, [], ◌∷◌, ◌++◌, if◌then◌else◌}
use varnish_rs.Outcome.{Bytes, Exec, pure, ◌>>=◌, ◌>>◌}
use varnish_rs.Workspace.{Runtime}
use varnish_rs.HeaderText.{StrOrBytes, as_bytes, starts_with}
use varnish_rs.Http.{Http, HdrIndex, set_header_raw, unset_header}
use varnish_rs.Http.Lookup.{header}

-- `ETag` and `W/`
abbrev pub etag_name : Bytes
etag_name = b'E' ∷ b'T' ∷ b'a' ∷ b'g' ∷ []

abbrev pub weak_prefix : Bytes
weak_prefix = b'W' ∷ b'/' ∷ []

module _ (rt : Runtime) (ix : HdrIndex) where
  unfoldable pub weaken : Option StrOrBytes → Exec Http (Unit {0})
  unfolding set_header_raw unset_header
  weaken none = pure tt
  weaken (some etag) = if starts_with weak_prefix (as_bytes etag) then pure tt else do
    unset_header ix etag_name
    set_header_raw rt ix (etag_name ++ (b':' ∷ b' ' ∷ weak_prefix ++ as_bytes etag))

  unfoldable pub weaken_etag : Exec Http (Unit {0})
  unfolding header weaken
  weaken_etag = do etag ← λ h. (header ix etag_name h, h); weaken etag
