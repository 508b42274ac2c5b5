-- ===== src/Files/Temporary.antt =====
-- The temporary file of `write_atomic`: what writing it does to the file system, and what it then holds.
use ignibyte_bridge.Prelude.{
  ◌≡◌, ◌≢◌, refl, ◌∙◌, inl, inr, Bool-cases, Option-cases, ℕ, suc, Option, none, [], ◌∷◌, ◌++◌,
  Bytes, codes, Result, ok, err,
}
use ignibyte_bridge.Effects.{and_then, pure, with_context}
use ignibyte_bridge.Files.{
  FilePath, FileKind, directory, special, regular, symlink, Node, Nodes, Disk, F, update,
  system_call, symlink_metadata, set_permissions, open_truncated, opened, append_byte, write_all,
  longer, remove_file,
}
use ignibyte_bridge.Files.Operations.{is_loose, create_private_file, write_tmp, failed_to}
use ignibyte_bridge.Files.Nodes.{
  update_else, Evolves, Evolves-still, Evolves-one, Evolves-trans, system_call-cases, context-state,
}

module _ (base : Nodes) (p : FilePath) where
  -- Nothing differs from `base` but at `p`.
  abbrev pub Elsewhere : Nodes → Type 0
  Elsewhere nodes = (q : FilePath) → q ≢ p → nodes q ≡ base q

  -- Neither at the end nor in between has anything but `p` changed.
  pub record Within (d d' : Disk) : Type 0 where
    pub evolves : Evolves Elsewhere d d'
    pub elsewhere : Elsewhere d'.nodes

  Within-still :
      {d d' : Disk}
      → Elsewhere d.nodes
      → d'.nodes ≡ d.nodes
      → d'.seen ≡ d.seen
      → d'.euid ≡ d.euid
      → Within d d'
  Within-still h n s u = record { evolves = Evolves-still s u; elsewhere = rw n h }

  Within-update :
      (d d' : Disk) (entry : Option Node)
      → Elsewhere d.nodes
      → d'.nodes ≡ update p entry d.nodes
      → d'.seen ≡ d.seen ++ update p entry d.nodes ∷ []
      → d'.euid ≡ d.euid
      → Within d d'
  Within-update d d' entry h n s u =
      let there : Elsewhere (update p entry d.nodes) =
        λ q k. update_else q p entry d.nodes k ∙ h q k in
      record {
        evolves = Evolves-one d d' (update p entry d.nodes) s u there;
        elsewhere = rw n there;
      }

  then-Within :
      {A B : Type 0} (d : Disk) (r : Result A × Disk) (f : A → F B)
      → Within d r.1
      → ((a : A) (v : Disk) → Elsewhere v.nodes → Within v (f a v).1)
      → Within d (and_then r f).1
  then-Within d (ok a, v) f w h =
      let x = h a v w.elsewhere in
      record { evolves = Evolves-trans w.evolves x.evolves; elsewhere = x.elsewhere }
  then-Within d (err e, v) f w h = w

  -- A system call that changes at most the node at `p`.
  call-Within :
      {A : Type 0} (m : F A) (d : Disk)
      → Elsewhere d.nodes
      → ((v : Disk) → v.nodes ≡ d.nodes → Elsewhere v.nodes → Within v (m v).1)
      → Within d (system_call m d).1
  call-Within m d h k =
      system_call-cases (λ r. Within d r.1) m d (λ e. Within-still h refl refl refl)
        (let w = k (record d { calls = suc d.calls }) refl h in
          record {
            evolves = record {
              new_seen = w.evolves.new_seen;
              seen_eq = w.evolves.seen_eq;
              all_seen = w.evolves.all_seen;
              same_euid = w.evolves.same_euid;
            };
            elsewhere = w.elsewhere;
          })

  open-Within : (d : Disk) → Elsewhere d.nodes → Within d (open_truncated p d).1
  unfolding open_truncated
  open-Within d h = call-Within _ d h λ v e k. elim (Option-cases (v.nodes p)) [
    | inl n ↦ rw n (Within-update v _ _ k refl refl refl)
    | inr (node, n) ↦ rw n (by_kind v node node.kind k)
  ]
    where
      by_kind :
          (v : Disk) (node : Node) (kind : FileKind)
          → Elsewhere v.nodes
          → Within v (opened p kind node v).1
      by_kind v node (regular contents) k = Within-update v _ _ k refl refl refl
      by_kind v node directory k = Within-still k refl refl refl
      by_kind v node special k = Within-still k refl refl refl
      by_kind v node (symlink to_directory) k = Within-still k refl refl refl

  metadata-Within : (d : Disk) → Elsewhere d.nodes → Within d (symlink_metadata p d).1
  unfolding symlink_metadata
  metadata-Within d h = call-Within _ d h (λ v e k. Within-still k refl refl refl)

  permissions-Within :
      (mode : ℕ) (d : Disk) → Elsewhere d.nodes → Within d (set_permissions p mode d).1
  unfolding set_permissions
  permissions-Within mode d h = call-Within _ d h λ v e k. elim (Option-cases (v.nodes p)) [
    | inl n ↦ rw n (Within-still k refl refl refl)
    | inr (node, n) ↦ rw n (Within-update v _ _ k refl refl refl)
  ]

  append-Within : (byte : ℕ) (d : Disk) → Elsewhere d.nodes → Within d (append_byte p byte d).1
  unfolding append_byte
  append-Within byte d h = call-Within _ d h λ v e k. elim (Option-cases (v.nodes p)) [
    | inl n ↦ rw n (Within-still k refl refl refl)
    | inr (node, n) ↦ rw n (by_kind v node node.kind k)
  ]
    where
      by_kind :
          (v : Disk) (node : Node) (kind : FileKind)
          → Elsewhere v.nodes
          → Within v (longer p byte kind node v).1
      by_kind v node (regular contents) k = Within-update v _ _ k refl refl refl
      by_kind v node directory k = Within-still k refl refl refl
      by_kind v node special k = Within-still k refl refl refl
      by_kind v node (symlink to_directory) k = Within-still k refl refl refl

  write_all-Within :
      (bytes : Bytes) (d : Disk) → Elsewhere d.nodes → Within d (write_all p bytes d).1
  unfolding write_all
  write_all-Within [] d h = Within-still h refl refl refl
  write_all-Within (b ∷ bytes) d h =
      then-Within d (append_byte p b d) _ (append-Within b d h)
        (λ a v k. write_all-Within bytes v k)

  pub remove-Within : (d : Disk) → Elsewhere d.nodes → Within d (remove_file p d).1
  unfolding remove_file
  remove-Within d h = call-Within _ d h (λ v e k. Within-update v _ none k refl refl refl)

  context-Within :
      {A : Type 0} (message : Bytes) (m : F A) (d : Disk)
      → Within d (m d).1
      → Within d (with_context message m d).1
  context-Within message m d w = rw (context-state message (m d)) w

  create-Within : (d : Disk) → Elsewhere d.nodes → Within d (create_private_file p d).1
  unfolding create_private_file
  create-Within d h =
      then-Within d (with_context (failed_to (codes "create") p) (open_truncated p) d) _
        (context-Within _ (open_truncated p) d (open-Within d h))
        λ a v k.
          then-Within v (with_context (failed_to (codes "inspect") p) (symlink_metadata p) v) _
            (context-Within _ (symlink_metadata p) v (metadata-Within v k))
            λ node u l. elim (Bool-cases (is_loose node.mode)) [
              | inl e ↦
                  rw e (context-Within _ (set_permissions p 0x180) u (permissions-Within 0x180 u l))
              | inr e ↦ rw e (Within-still l refl refl refl)
            ]

  pub write_tmp-Within :
      (contents : Bytes) (d : Disk) → Elsewhere d.nodes → Within d (write_tmp p contents d).1
  unfolding write_tmp
  write_tmp-Within contents d h =
      then-Within d (create_private_file p d) _ (create-Within d h) λ a v k.
        then-Within v (with_context (failed_to (codes "write") p) (write_all p contents) v) _
          (context-Within _ (write_all p contents) v (write_all-Within contents v k))
          λ b u l.
            context-Within _ (system_call (pure tt)) u
              (call-Within (pure tt) u l (λ x e m. Within-still m refl refl refl))
