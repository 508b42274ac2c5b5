-- ===== src/Files/Contents.antt =====
-- What a temporary file holds once it has been written.
use ignibyte_bridge.Prelude.{
  subst, ◌≡◌, refl, sym, ap, ◌∙◌, inl, inr, false, Bool-cases, Option-cases, ℕ, suc, ◌%◌, some, [],
  ◌∷◌, ◌++◌, append_assoc, append-nil, arith, Bytes, codes, ok,
}
use ignibyte_bridge.Effects.{and_then-ok, pure, with_context}
use ignibyte_bridge.Files.{
  FilePath, FileKind, directory, special, regular, symlink, Node, Nodes, Disk, update, system_call,
  symlink_metadata, set_permissions, open_truncated, opened, append_byte, write_all,
}
use ignibyte_bridge.Files.Operations.{is_loose, create_private_file, write_tmp, failed_to}
use ignibyte_bridge.Files.Nodes.{
  update_at, system_call-cases, context-ok, context-only, metadata-found,
}

-- A file with these contents that only the owner can use.
pub data Holds (nodes : Nodes) (p : FilePath) (contents : Bytes) : Type 0 where
  holds :
      (node : Node)
      → nodes p ≡ some node
      → node.kind ≡ regular contents
      → node.mode % 64 ≡ 0
      → Holds nodes p contents

not-loose : (mode : ℕ) → is_loose mode ≡ false → mode % 64 ≡ 0
not-loose mode h = ground arith

module _ (p : FilePath) where
  Holds-update :
      (nodes : Nodes) (node : Node) (contents : Bytes)
      → node.kind ≡ regular contents
      → node.mode % 64 ≡ 0
      → Holds (update p (some node) nodes) p contents
  Holds-update nodes node contents k m = holds node (update_at p (some node) nodes) k m

  -- Behind a successful open there is an empty file.
  open-empty :
      (d : Disk)
      → (open_truncated p d).0 ≡ ok tt
      → (node : Node) × ((open_truncated p d).1.nodes p ≡ some node) × (node.kind ≡ regular [])
  unfolding open_truncated
  open-empty d =
      system_call-cases
        (λ r. r.0 ≡ ok tt → (node : Node) × (r.1.nodes p ≡ some node) × (node.kind ≡ regular [])) _
        d (λ e h. absurd cc)
        (elim (Option-cases (d.nodes p)) [
          | inl n ↦ rw n (λ h. (_, update_at p _ d.nodes, refl))
          | inr (node, n) ↦ rw n (by_kind node node.kind)
        ])
    where
      by_kind :
          (node : Node) (kind : FileKind)
          → (opened p kind node (record d { calls = suc d.calls })).0 ≡ ok tt
          → (n : Node) × ((opened p kind node (record d { calls = suc d.calls })).1.nodes p
              ≡ some n)
            × (n.kind ≡ regular [])
      by_kind node (regular contents) h =
          (record node { kind = regular [] }, update_at p _ d.nodes, refl)
      by_kind node directory h = absurd cc
      by_kind node special h = absurd cc
      by_kind node (symlink to_directory) h = absurd cc

  append-Holds :
      (byte : ℕ) (contents : Bytes) (d : Disk)
      → Holds d.nodes p contents
      → (append_byte p byte d).0 ≡ ok tt
      → Holds (append_byte p byte d).1.nodes p (contents ++ byte ∷ [])
  unfolding append_byte
  append-Holds byte contents d (holds node n k m) =
      system_call-cases (λ r. r.0 ≡ ok tt → Holds r.1.nodes p (contents ++ byte ∷ [])) _ d
        (λ e h. absurd cc)
        (rw (n, k)
          (λ h.
            Holds-update d.nodes (record node { kind = regular (contents ++ byte ∷ []) })
              (contents ++ byte ∷ []) refl m))

  write_all-Holds :
      (bytes contents : Bytes) (d : Disk)
      → Holds d.nodes p contents
      → (write_all p bytes d).0 ≡ ok tt
      → Holds (write_all p bytes d).1.nodes p (contents ++ bytes)
  unfolding write_all
  write_all-Holds [] contents d h e = rw (append-nil contents) h
  write_all-Holds (b ∷ bytes) contents d h e =
      subst (λ s. Holds (write_all p (b ∷ bytes) d).1.nodes p s)
        (append_assoc contents (b ∷ []) bytes)
        (and_then-ok (λ _ v. Holds v.nodes p ((contents ++ b ∷ []) ++ bytes)) (append_byte p b d)
          (λ _. write_all p bytes) tt
          (λ a v q k.
            write_all-Holds bytes (contents ++ b ∷ []) v
              (subst (λ r. Holds r.1.nodes p (contents ++ b ∷ [])) q
                (append-Holds b contents d h (ap (λ r. r.0) q)))
              k)
          e)

  permissions-Holds :
      (contents : Bytes) (node : Node) (d : Disk)
      → d.nodes p ≡ some node
      → node.kind ≡ regular contents
      → (set_permissions p 0x180 d).0 ≡ ok tt
      → Holds (set_permissions p 0x180 d).1.nodes p contents
  unfolding set_permissions
  permissions-Holds contents node d n k =
      system_call-cases (λ r. r.0 ≡ ok tt → Holds r.1.nodes p contents) _ d (λ e h. absurd cc)
        (rw n (λ h. Holds-update d.nodes (record node { mode = 0x180 }) contents k refl))

  create-Holds :
      (d : Disk)
      → (create_private_file p d).0 ≡ ok tt
      → Holds (create_private_file p d).1.nodes p []
  unfolding create_private_file
  create-Holds d =
      and_then-ok (λ _ v. Holds v.nodes p [])
        (with_context (failed_to (codes "create") p) (open_truncated p) d) _ tt
        λ a v q.
          and_then-ok (λ _ v. Holds v.nodes p [])
            (with_context (failed_to (codes "inspect") p) (symlink_metadata p) v) _ tt
            λ node u r.
              let q' = context-ok _ (open_truncated p d) a v q in
              let (n0, e0, k0) = open-empty d (ap (λ r. r.0) q') in
              let (n, _, o) =
                metadata-found p v u node (context-ok _ (symlink_metadata p v) node u r) in
              let same : n0 ≡ node =
                (let x : some n0 ≡ some node = sym e0 ∙ (ap (λ r. r.1.nodes p) q' ∙ o) in cc) in
              let k : node.kind ≡ regular [] = ap (λ m. m.kind) (sym same) ∙ k0 in
              elim (Bool-cases (is_loose node.mode)) [
                | inl l ↦ rw l (
                    context-only _ (set_permissions p 0x180 u) (λ w. Holds w.nodes p [])
                      (permissions-Holds [] node u n k))
                | inr l ↦ rw l (λ z. holds node n k (not-loose node.mode l))
              ]

  pub write_tmp-Holds :
      (contents : Bytes) (d : Disk)
      → (write_tmp p contents d).0 ≡ ok tt
      → Holds (write_tmp p contents d).1.nodes p contents
  unfolding write_tmp
  write_tmp-Holds contents d =
      and_then-ok (λ _ v. Holds v.nodes p contents) (create_private_file p d) _ tt
        λ a v q.
          let h = subst (λ r. Holds r.1.nodes p []) q (create-Holds d (ap (λ r. r.0) q)) in
          and_then-ok (λ _ v. Holds v.nodes p contents)
            (with_context (failed_to (codes "write") p) (write_all p contents) v) _ tt
            λ b u r.
              let r' = context-ok _ (write_all p contents v) b u r in
              let h' =
                subst (λ r. Holds r.1.nodes p contents) r'
                  (write_all-Holds contents [] v h (ap (λ r. r.0) r')) in
              context-only _ (system_call (pure tt) u) (λ w. Holds w.nodes p contents)
                (system_call-cases (λ r. r.0 ≡ ok tt → Holds r.1.nodes p contents) _ u
                  (λ e z. absurd cc) (λ z. h'))
