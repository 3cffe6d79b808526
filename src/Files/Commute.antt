-- ===== src/Files/Commute.antt =====
-- Two writes that do not overlap can be made in either order.
use apue_2e.Base.{
  ℕ, zero, suc, ◌+◌, ◌≤◌, ◌≡◌, refl, ap, sym, ◌∙◌, [], ◌∷◌, length, arith, ◌⊎◌, inl, inr,
}
use apue_2e.Files.{Bytes, write_at}

write_at-nil : (f : Bytes) → write_at f 0 [] ≡ f
unfolding write_at
write_at-nil [] = refl
write_at-nil (x ∷ f) = refl

pub write_at_comm :
    (f : Bytes) (p : ℕ) (bs : Bytes) (q : ℕ) (cs : Bytes)
    → p + length bs ≤ q
    → write_at (write_at f p bs) q cs ≡ write_at (write_at f q cs) p bs
unfolding write_at
write_at_comm f zero [] q cs h =
    ap (λ g. write_at g q cs) (write_at-nil f) ∙ sym (write_at-nil (write_at f q cs))
write_at_comm f zero (b ∷ bs) zero cs h = absurd (omega arith)
write_at_comm [] zero (b ∷ bs) (suc q) cs h =
    ap (λ g. b ∷ g) (write_at_comm [] zero bs q cs (omega arith))
write_at_comm (x ∷ f) zero (b ∷ bs) (suc q) cs h =
    ap (λ g. b ∷ g) (write_at_comm f zero bs q cs (omega arith))
write_at_comm f (suc p) bs zero cs h = absurd (omega arith)
write_at_comm [] (suc p) bs (suc q) cs h =
    ap (λ g. 0 ∷ g) (write_at_comm [] p bs q cs (omega arith))
write_at_comm (x ∷ f) (suc p) bs (suc q) cs h =
    ap (λ g. x ∷ g) (write_at_comm f p bs q cs (omega arith))

pub write_at-Apart :
    (f : Bytes) (p : ℕ) (bs : Bytes) (q : ℕ) (cs : Bytes)
    → (p + length bs ≤ q) ⊎ (q + length cs ≤ p)
    → write_at (write_at f p bs) q cs ≡ write_at (write_at f q cs) p bs
write_at-Apart f p bs q cs (inl h) = write_at_comm f p bs q cs h
write_at-Apart f p bs q cs (inr h) = sym (write_at_comm f q cs p bs h)
