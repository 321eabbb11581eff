-- ===== src/Overlay/Bridge/Maps.antt =====
-- Maps with byte strings as their keys.
use claw_net.Base.{◌≡◌, none, some, Bytes, Bool-cases, inl, inr, subst, same_bytes, same_bytes_eq}
use claw_net.Overlay.Bridge.{ByteMap, put, delete}

-- A statement about each entry.
abbrev pub AllEntries : {V : Type 0} → (Bytes → V → Type 0) → ByteMap V → Type 0
AllEntries {V} P m = (k : Bytes) (v : V) → m k ≡ some v → P k v

pub put-AllEntries :
    {V : Type 0} (P : Bytes → V → Type 0) (k : Bytes) (v : V) (m : ByteMap V)
    → P k v
    → AllEntries P m
    → AllEntries P (put k v m)
put-AllEntries P k v m p all j w e = elim (Bool-cases (same_bytes k j)) [
  | inl s ↦
      let q : k ≡ j = same_bytes_eq k j s in
      let e' : some v ≡ some w = rw s at e in
      let r : v ≡ w = cc e' in subst (λ x. P x w) q (subst (P k) r p)
  | inr s ↦ let e' : m j ≡ some w = rw s at e in all j w e'
]

pub delete-AllEntries :
    {V : Type 0} (P : Bytes → V → Type 0) (k : Bytes) (m : ByteMap V)
    → AllEntries P m
    → AllEntries P (delete k m)
delete-AllEntries P k m all j w e = elim (Bool-cases (same_bytes k j)) [
  | inl s ↦ let e' : none ≡ some w = rw s at e in absurd (cc e')
  | inr s ↦ let e' : m j ≡ some w = rw s at e in all j w e'
]
