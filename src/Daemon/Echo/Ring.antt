-- ===== src/Daemon/Echo/Ring.antt =====
-- The ring buffer of echoes holds the last messages.
use claw_net.Base.{
  ℕ, suc, ◌+◌, ◌≡◌, ◌∙◌, ◌≤◌, ◌<◌, refl, sym, ap, arith, false, List, [], ◌∷◌, ◌++◌, length, ltb,
  Bool-cases, inl, inr, length-append, append_assoc, subst,
}
use claw_net.Daemon.Echo.{EchoMsg, EchoBuf, set, push, new_echo_buf}

-- The buffer has had the messages `past`: it keeps them all while they fit, and else the last `cap` of them,
-- the oldest one at `idx`.
pub data Holds (cap : ℕ) (past : List EchoMsg) (b : EchoBuf) : Type 0 where
  filling : b.cap ≡ cap → b.ring ≡ past → b.idx ≡ length past → length past < cap → Holds cap past b
  full :
      (gone old new : List EchoMsg)
      → b.cap ≡ cap
      → b.ring ≡ new ++ old
      → b.idx ≡ length new
      → length new < cap
      → length new + length old ≡ cap
      → past ≡ gone ++ (old ++ new)
      → Holds cap past b

set-append :
    (xs ys : List EchoMsg) (y m : EchoMsg) → set (xs ++ y ∷ ys) (length xs) m ≡ xs ++ m ∷ ys
set-append [] ys y m = refl
set-append (x ∷ xs) ys y m = rw (set-append xs ys y m) refl

append_nil : (xs : List EchoMsg) → xs ++ [] ≡ xs
append_nil [] = refl
append_nil (x ∷ xs) = rw (append_nil xs) refl

module _ (m : EchoMsg) (b : EchoBuf) where
  pushed_last : length b.ring < b.cap → (push m b).ring ≡ b.ring ++ m ∷ []
  unfolding push
  pushed_last h = ground arith

  overwritten : b.cap ≤ length b.ring → (push m b).ring ≡ set b.ring b.idx m
  unfolding push
  overwritten h = ground arith

  next_idx : suc b.idx < b.cap → (push m b).idx ≡ suc b.idx
  unfolding push
  next_idx h = grind arith

  wrapped_idx : 0 < b.cap → suc b.idx ≡ b.cap → (push m b).idx ≡ 0
  unfolding push
  wrapped_idx h e = let q : b.idx + 1 ≡ b.cap = omega arith in rw (push, q) (grind arith)

  push-cap : (push m b).cap ≡ b.cap
  unfolding push
  push-cap = refl

-- The oldest message is written over.
overwrite :
    (m : EchoMsg) (b : EchoBuf) (cap : ℕ) (x : EchoMsg) (old new : List EchoMsg)
    → b.cap ≡ cap
    → b.ring ≡ new ++ x ∷ old
    → b.idx ≡ length new
    → length new + length (x ∷ old) ≡ cap
    → (push m b).ring ≡ new ++ m ∷ old
overwrite m b cap x old new c r i size =
    overwritten m b (rw (r, c) (omega (arith, length-append new (x ∷ old))))
    ∙ rw (r, i) (set-append new old x m)

moved :
    (gone : List EchoMsg) (x : EchoMsg) (rest : List EchoMsg) (m : EchoMsg)
    → (gone ++ x ∷ rest) ++ m ∷ [] ≡ (gone ++ x ∷ []) ++ (rest ++ m ∷ [])
moved gone x rest m =
    append_assoc gone (x ∷ rest) (m ∷ []) ∙ sym (append_assoc gone (x ∷ []) (rest ++ m ∷ []))

pub push-Holds :
    (cap : ℕ) (past : List EchoMsg) (m : EchoMsg) (b : EchoBuf)
    → Holds cap past b
    → Holds cap (past ++ m ∷ []) (push m b)
push-Holds cap past m b (filling c r i h) =
    let one_more : length (past ++ m ∷ []) ≡ suc (length past) =
      omega (arith, length-append past (m ∷ [])) in
    let few : length b.ring < b.cap = rw (r, c) h in
    let ring_is : (push m b).ring ≡ past ++ m ∷ [] =
      pushed_last m b few ∙ ap (λ l. l ++ m ∷ []) r in
    let exactly : ltb (suc (length past)) cap ≡ false → suc (length past) ≡ cap =
      λ e. ground arith in
    elim (Bool-cases (ltb (suc (length past)) cap)) [
      | inl more ↦
          filling (push-cap m b ∙ c) ring_is
            (next_idx m b (rw (i, c) (ground arith)) ∙ ap suc i ∙ sym one_more)
            (ground (arith, one_more))
      | inr last ↦
          full [] (past ++ m ∷ []) [] (push-cap m b ∙ c) ring_is
            (wrapped_idx m b (omega arith) (rw (i, c) (ground arith))) (omega arith)
            (omega (arith, one_more, exactly last)) (sym (append_nil (past ++ m ∷ [])))
    ]
push-Holds cap past m b (full gone [] new c r i low size e) = absurd (omega arith)
push-Holds cap past m b (full gone (x ∷ []) new c r i low size e) =
    full (gone ++ x ∷ []) (new ++ m ∷ []) [] (push-cap m b ∙ c)
      (overwrite m b cap x [] new c r i size)
      (wrapped_idx m b (rw c (omega arith)) (rw (i, c) (omega arith))) (omega arith)
      (omega (arith, length-append new (m ∷ [])))
      (ap (λ l. l ++ m ∷ []) e
        ∙ moved gone x new m
        ∙ ap (λ l. (gone ++ x ∷ []) ++ l) (sym (append_nil (new ++ m ∷ []))))
push-Holds cap past m b (full gone (x ∷ y ∷ old) new c r i low size e) =
    full (gone ++ x ∷ []) (y ∷ old) (new ++ m ∷ []) (push-cap m b ∙ c)
      (overwrite m b cap x (y ∷ old) new c r i size ∙ sym (append_assoc new (m ∷ []) (y ∷ old)))
      (next_idx m b (rw (i, c) (omega arith))
        ∙ ap suc i
        ∙ omega (arith, length-append new (m ∷ [])))
      (omega (arith, length-append new (m ∷ []))) (omega (arith, length-append new (m ∷ [])))
      (ap (λ l. l ++ m ∷ []) e
        ∙ moved gone x (y ∷ old ++ new) m
        ∙ ap (λ l. (gone ++ x ∷ []) ++ y ∷ l) (append_assoc old new (m ∷ [])))

pub new-Holds : (cap : ℕ) → 0 < cap → Holds cap [] (new_echo_buf cap)
new-Holds cap h = filling refl refl refl h

abbrev pub push_all : List EchoMsg → EchoBuf → EchoBuf
push_all [] b = b
push_all (m ∷ ms) b = push_all ms (push m b)

pub push_all-Holds :
    (cap : ℕ) (past ms : List EchoMsg) (b : EchoBuf)
    → Holds cap past b
    → Holds cap (past ++ ms) (push_all ms b)
push_all-Holds cap past [] b h = rw (append_nil past) h
push_all-Holds cap past (m ∷ ms) b h =
    subst (λ l. Holds cap l (push_all ms (push m b))) (append_assoc past (m ∷ []) ms)
      (push_all-Holds cap (past ++ m ∷ []) ms (push m b) (push-Holds cap past m b h))
