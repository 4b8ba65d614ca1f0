-- ===== src/Ssh/Command.antt =====
-- The commands that are read are exactly those that git prints for a repository of a valid name.
use gitclub.Base.{
  ℕ, ◌++◌, ◌≡◌, ◌↔◌, inl, inr, refl, sym, ap, subst, Str, bytes, true, ◌&&◌, [], ◌∷◌, Option, none,
  some, arith, if◌then◌else◌, str_keys, str_eq, str_eq_iff, nat_beq, all, Lacks, cut_at,
  cut_at-append, cut_at_sound, strip_suffix, strip_suffix-append, strip_suffix_sound, Bool-cases,
}
use gitclub.Namespaces.{valid_name, is_name_char}
use gitclub.Ssh.{
  Parts, is_operation, upload_pack, receive_pack, checked_parts, quoted_parts, spaced_parts,
  parse_command,
}

-- The command for a repository.
abbrev pub print_command : Parts → Str
print_command p = (p.operation ++ (b' ' ∷ b'\'' ∷ (p.owner ++ (b'/' ∷ p.name)))) ++ bytes ".git'"

-- The parts that a command may have.
abbrev pub AreAllowed : Parts → Type 0
AreAllowed p =
    (is_operation p.operation ≡ true) × (valid_name p.owner ≡ true) × (valid_name p.name ≡ true)

operation-Lacks : (op : Str) → is_operation op ≡ true → Lacks b' ' op
unfolding is_operation
operation-Lacks op h = elim (Bool-cases (str_eq op upload_pack)) [
  | inl t ↦ subst (Lacks b' ') (sym ((str_eq_iff op upload_pack).0 t)) (ground arith)
  | inr t ↦
      subst (Lacks b' ') (sym ((str_eq_iff op receive_pack).0 (ground (arith, h, t))))
        (ground arith)
]

name_chars-Lacks : (s : Str) → all is_name_char s ≡ true → Lacks b'/' s
unfolding all
name_chars-Lacks [] h = tt
name_chars-Lacks (c ∷ s) h = (ground (arith, h), name_chars-Lacks s (ground (arith, h)))

name-Lacks : (s : Str) → valid_name s ≡ true → Lacks b'/' s
unfolding valid_name
name-Lacks [] h = tt
name-Lacks (c ∷ s) h = (ground (arith, h), name_chars-Lacks s (ground (arith, h)))

checked_parts_iff :
    (op : Str) (o : Option (Str × Str)) (p : Parts)
    → checked_parts op o ≡ some p
    → (p.operation ≡ op) × (o ≡ some (p.owner, p.name)) × AreAllowed p
checked_parts_iff op none p h = cc
checked_parts_iff op (some (owner, name)) p h =
    elim (Bool-cases (is_operation op && (valid_name owner && valid_name name))) [
      | inr t ↦ cc (rw t at h)
      | inl t ↦ fits (rw t at h) (ground (arith, t)) (ground (arith, t)) (ground (arith, t))
    ]
  where
    fits :
        ◌≡◌ {A = Option Parts}
          (some (record { operation = op; owner = owner; name = name }))
          (some p)
        → is_operation op ≡ true
        → valid_name owner ≡ true
        → valid_name name ≡ true
        → (p.operation ≡ op)
          × (◌≡◌ {A = Option (Str × Str)} (some (owner, name)) (some (p.owner, p.name)))
          × AreAllowed p
    fits e a b c =
        let same : ◌≡◌ {A = Parts} (record { operation = op; owner = owner; name = name }) p = cc in
        (
          ap (λ (x : Parts). x.operation) (sym same),
          ap (λ (x : Parts). some (x.owner, x.name)) same,
          subst AreAllowed same (a, b, c),
        )

parsed_prints :
    (s : Str) (p : Parts) → parse_command s ≡ some p → (s ≡ print_command p) × AreAllowed p
unfolding parse_command
parsed_prints s p h = stripped (strip_suffix s (bytes ".git'")) refl h
  where
    slashed :
        (t op rest : Str) (c : ℕ)
        → s ≡ t ++ bytes ".git'"
        → t ≡ op ++ (b' ' ∷ c ∷ rest)
        → (if nat_beq c b'\'' then checked_parts op (cut_at b'/' rest) else none) ≡ some p
        → (s ≡ print_command p) × AreAllowed p
    slashed t op rest c es et q = elim (Bool-cases (nat_beq c b'\'')) [
      | inr f ↦ cc (rw f at q)
      | inl f ↦
          let (eo, cut, allowed) = checked_parts_iff op (cut_at b'/' rest) p (rw f at q) in
          let (er, _) = cut_at_sound b'/' rest p.owner p.name cut in
          let ec : c ≡ b'\'' = ground arith in (rw (es, et, ec, er, eo) refl, allowed)
    ]

    spaced :
        (t : Str) (o : Option (Str × Str))
        → s ≡ t ++ bytes ".git'"
        → cut_at b' ' t ≡ o
        → quoted_parts o ≡ some p
        → (s ≡ print_command p) × AreAllowed p
    spaced t none es e q = cc
    spaced t (some (op, [])) es e q = cc
    spaced t (some (op, c ∷ rest)) es e q =
        slashed t op rest c es (cut_at_sound b' ' t op (c ∷ rest) e).0 q

    stripped :
        (o : Option Str)
        → strip_suffix s (bytes ".git'") ≡ o
        → spaced_parts o ≡ some p
        → (s ≡ print_command p) × AreAllowed p
    stripped none e q = cc
    stripped (some t) e q =
        spaced t (cut_at b' ' t) (strip_suffix_sound s (bytes ".git'") t e) refl q

parse_command-print : (p : Parts) → AreAllowed p → parse_command (print_command p) ≡ some p
unfolding parse_command
parse_command-print p (op, owner, name) =
    rw
      (strip_suffix-append (p.operation ++ (b' ' ∷ b'\'' ∷ (p.owner ++ (b'/' ∷ p.name))))
        (bytes ".git'"))
      (rw
        (cut_at-append b' ' p.operation (b'\'' ∷ (p.owner ++ (b'/' ∷ p.name)))
          (operation-Lacks p.operation op))
        (rw (cut_at-append b'/' p.owner p.name (name-Lacks p.owner owner), op, owner, name) refl))

-- A command is read as three parts exactly if the operation is one of the two, the names are valid, and
-- the command is what these parts print.
pub parse_command_iff :
    (s : Str) (p : Parts) → (parse_command s ≡ some p) ↔ ((s ≡ print_command p) × AreAllowed p)
parse_command_iff s p = (
  parsed_prints s p,
  λ h. subst (λ x. parse_command x ≡ some p) (sym h.0) (parse_command-print p h.1),
)
