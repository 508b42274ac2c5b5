-- ===== src/Files/Bridge.antt =====
-- The directories that `ensure_bridge_dir` leaves.
use ignibyte_bridge.Prelude.{
  subst, ◌≡◌, ◌≢◌, refl, sym, ap, inl, inr, Bool-cases, Option-cases, none, some, List, [], ◌∷◌,
  ◌++◌, All, bytes_eq, bytes_eq_iff, ok,
}
use ignibyte_bridge.Effects.{and_then, and_then-ok}
use ignibyte_bridge.Files.{FilePath, Disk}
use ignibyte_bridge.Files.Operations.{
  ancestors, ensure_private_dir, ensure_each, ensure_bridge_dir, strip_prefix,
}
use ignibyte_bridge.Files.Private.{IsPrivate, Safer, each-Safer, ensure-IsPrivate}

Safer-All :
    {d d' : Disk} (ps : List FilePath) → Safer d d' → All (IsPrivate d) ps → All (IsPrivate d') ps
Safer-All [] s h = tt
Safer-All (p ∷ ps) s h = (s.keeps p h.0, Safer-All ps s h.1)

each-IsPrivate :
    (current cs : FilePath) (d : Disk)
    → (ensure_each current cs d).0 ≡ ok tt
    → All (IsPrivate (ensure_each current cs d).1) (ancestors current cs)
unfolding ensure_each
each-IsPrivate current [] d = λ h. tt
each-IsPrivate current (c ∷ cs) d =
    and_then-ok (λ _ v. All (IsPrivate v) (ancestors current (c ∷ cs)))
      (ensure_private_dir (current ++ c ∷ []) d) _ tt
      λ a v q e. (
        (each-Safer (current ++ c ∷ []) cs v).keeps (current ++ c ∷ [])
            (rw (ap (λ r. r.1) q) at (ensure-IsPrivate (current ++ c ∷ []) d (ap (λ r. r.0) q))),
        each-IsPrivate (current ++ c ∷ []) cs v e,
      )

strip-append :
    (root dir relative : FilePath) → strip_prefix root dir ≡ some relative → dir ≡ root ++ relative
strip-append [] dir relative h = cc
strip-append (a ∷ root) [] relative h = absurd cc
strip-append (a ∷ root) (b ∷ dir) relative h = elim (Bool-cases (bytes_eq a b)) [
  | inl e ↦
      let same : a ≡ b = (bytes_eq_iff a b).0 e in
      let rest = strip-append root dir relative (rw e at h) in cc
  | inr e ↦ absurd (let h' = rw e at h in cc)
]

bridge-inside :
    (root dir relative : FilePath) (d : Disk)
    → strip_prefix root dir ≡ some relative
    → ensure_bridge_dir (ok root) dir d
      ≡ and_then (ensure_private_dir root d) (λ _. ensure_each root relative)
unfolding ensure_bridge_dir
bridge-inside root dir relative d e = rw e refl

bridge-outside :
    (root dir : FilePath) (d : Disk)
    → strip_prefix root dir ≡ none
    → (ensure_bridge_dir (ok root) dir d).0 ≢ ok tt
unfolding ensure_bridge_dir
bridge-outside root dir d e =
    rw e (λ h. and_then-ok (λ _ _. ⊥) (ensure_private_dir root d) _ tt (λ a v q k. cc) h)

-- If `ensure_bridge_dir` succeeds, the directory lies below the bridge root, and it, the root and every
-- directory between them are real directories, not links, that belong to the user and that only the
-- owner can use.
pub ensure_bridge-IsPrivate :
    (root dir : FilePath) (d : Disk)
    → (ensure_bridge_dir (ok root) dir d).0 ≡ ok tt
    → (relative : FilePath) × (dir ≡ root ++ relative)
      × All (IsPrivate (ensure_bridge_dir (ok root) dir d).1) (root ∷ ancestors root relative)
ensure_bridge-IsPrivate root dir d h = elim (Option-cases (strip_prefix root dir)) [
  | inl e ↦ absurd (bridge-outside root dir d e h)
  | inr (relative, e) ↦
      let b = bridge-inside root dir relative d e in
      (
        relative,
        strip-append root dir relative e,
        subst (λ r. IsPrivate r.1 root × All (IsPrivate r.1) (ancestors root relative)) (sym b)
            (and_then-ok (λ _ v. IsPrivate v root × All (IsPrivate v) (ancestors root relative))
              (ensure_private_dir root d) (λ _. ensure_each root relative) tt
              (λ a v q k. (
                (each-Safer root relative v).keeps root
                    (rw (ap (λ r. r.1) q) at (ensure-IsPrivate root d (ap (λ r. r.0) q))),
                each-IsPrivate root relative v k,
              ))
              (rw b at h)),
      )
]
