-- ===== src/Tests/Names.antt =====
-- Names, programs, keys and start-time tokens, at concrete inputs.
use ignibyte_bridge.Prelude.{◌≡◌, ◌≢◌, ◌↔◌, refl, ◌++◌, ◌∷◌, Bytes, codes, ok, All, bytes_eq}
use ignibyte_bridge.Text.{split}
use ignibyte_bridge.Paths.{
  validate_session_name, is_name_byte, starts_with, ends_with, session_dir, path_join,
  resolve_program_path,
}
use ignibyte_bridge.Paths.Names.{IsSessionName, validate_iff, session_dir-child}
use ignibyte_bridge.Paths.Programs.{Search, resolve-Search}

validate_iff_example :
    (validate_session_name (codes "web-1") ≡ ok tt) ↔ IsSessionName (codes "web-1")
validate_iff_example = validate_iff (codes "web-1")

web_dir : session_dir (ok (codes "/b")) (codes "web") ≡ ok (codes "/b/sessions/web")
unfolding session_dir validate_session_name path_join is_name_byte starts_with ends_with bytes_eq
web_dir = refl

session_dir-child_example :
    (codes "/b/sessions/web" ≡ path_join (codes "/b") (codes "sessions") ++ (b'/' ∷ codes "web"))
    × IsSessionName (codes "web")
    × All (λ b. b ≢ b'/') (codes "web")
session_dir-child_example =
    session_dir-child (codes "/b") (codes "web") (codes "/b/sessions/web") web_dir

abbrev path : Bytes
path = codes "/bin::/usr/bin"

resolve-Search_example :
    Search
      (λ f. bytes_eq f (codes "/usr/bin/sh"))
      (codes "sh")
      (split b':' path)
      (resolve_program_path (λ f. bytes_eq f (codes "/usr/bin/sh")) (codes "sh") path)
resolve-Search_example =
    resolve-Search (λ f. bytes_eq f (codes "/usr/bin/sh")) (codes "sh") path refl
