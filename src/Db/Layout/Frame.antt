-- ===== src/Db/Layout/Frame.antt =====
-- Writes elsewhere leave pointers, records and data as they are.
use apue_2e.Base.{
  ℕ, ◌+◌, ◌-◌, ◌≤◌, ◌≡◌, ◌⊎◌, inl, inr, [], ◌∷◌, List, arith, All, length, ap, ◌∙◌, take,
}
use apue_2e.Files.{Bytes, read_at, write_at}
use apue_2e.Files.Frame.{read_at_before, read_at_after, length-le-write_at}
use apue_2e.CText.{cstr, atol}
use apue_2e.Db.State.{ptr_sz, idxlen_sz}
use apue_2e.Db.Fields.{byte_at}
use apue_2e.Db.Index.{parse_record}
use apue_2e.Db.Layout.{Entry, PtrAt, BodyAt, DataAt, Links, AllData}

-- The `n` bytes at `o` lie before or behind the `m` bytes at `p`.
abbrev pub Apart : (o n p m : ℕ) → Type 0
Apart o n p m = (o + n ≤ p) ⊎ (p + m ≤ o)

pub read_at-Apart :
    (f : Bytes) (p : ℕ) (bs : Bytes) (o n : ℕ)
    → Apart o n p (length bs)
    → o + n ≤ length f
    → read_at (write_at f p bs) o n ≡ read_at f o n
read_at-Apart f p bs o n (inl h) k = read_at_before f p bs o n h k
read_at-Apart f p bs o n (inr h) k = read_at_after f p bs o n h

module _ (f : Bytes) (p : ℕ) (bs : Bytes) where
  pub PtrAt-write_at :
      {off v : ℕ} → PtrAt f off v → Apart off ptr_sz p (length bs) → PtrAt (write_at f p bs) off v
  PtrAt-write_at {off} h a = record {
    inside = omega (arith, h.inside, length-le-write_at f p bs);
    value = ap (λ t. atol (cstr t)) (read_at-Apart f p bs off ptr_sz a h.inside) ∙ h.value;
  }

  pub BodyAt-write_at :
      {e : Entry}
      → BodyAt f e
      → Apart (e.off + ptr_sz) (idxlen_sz + e.idxlen) p (length bs)
      → BodyAt (write_at f p bs) e
  BodyAt-write_at {e} h a =
      let body =
        read_at-Apart f p bs (e.off + (ptr_sz + idxlen_sz)) e.idxlen (omega arith) h.inside in
      record {
        inside = omega (arith, h.inside, length-le-write_at f p bs);
        len =
            ap (λ t. atol (cstr t))
              (read_at-Apart f p bs (e.off + ptr_sz) idxlen_sz (omega arith)
                (omega (arith, h.inside)))
            ∙ h.len;
        min = h.min;
        max = h.max;
        ends = ap (λ t. byte_at t (e.idxlen - 1)) body ∙ h.ends;
        fields = ap (λ t. parse_record (cstr (take (e.idxlen - 1) t))) body ∙ h.fields;
      }

  pub DataAt-write_at :
      {e : Entry} → DataAt f e → Apart e.datoff e.datlen p (length bs) → DataAt (write_at f p bs) e
  DataAt-write_at {e} h a =
      let line = read_at-Apart f p bs e.datoff e.datlen a h.inside in
      record {
        inside = omega (arith, h.inside, length-le-write_at f p bs);
        ends = ap (λ t. byte_at t (e.datlen - 1)) line ∙ h.ends;
        text = ap (λ t. cstr (take (e.datlen - 1) t)) line ∙ h.text;
      }

-- Every record of the list lies apart from the `m` bytes at `p`.
abbrev pub IndexApart : ℕ → ℕ → List Entry → Type 0
IndexApart p m es = All (λ e. Apart e.off (ptr_sz + idxlen_sz + e.idxlen) p m) es

abbrev pub DataApart : ℕ → ℕ → List Entry → Type 0
DataApart p m es = All (λ e. Apart e.datoff e.datlen p m) es

module _ (f : Bytes) (p : ℕ) (bs : Bytes) where
  pub Links-write_at :
      (es : List Entry) → Links f es → IndexApart p (length bs) es → Links (write_at f p bs) es
  Links-write_at [] h a = tt
  Links-write_at (e ∷ es) (ne, body, ptr, rest) (a, as') = (
    ne,
    BodyAt-write_at f p bs body (omega arith),
    PtrAt-write_at f p bs ptr (omega arith),
    Links-write_at es rest as',
  )

  pub AllData-write_at :
      (es : List Entry) → AllData f es → DataApart p (length bs) es → AllData (write_at f p bs) es
  AllData-write_at [] h a = tt
  AllData-write_at (e ∷ es) (here, rest) (a, as') =
      (DataAt-write_at f p bs here a, AllData-write_at es rest as')

-- What stands in a file lies apart from what is written at its end.
pub Links-IndexApart :
    (f : Bytes) (m : ℕ) (es : List Entry) → Links f es → IndexApart (length f) m es
Links-IndexApart f m [] h = tt
Links-IndexApart f m (e ∷ es) (ne, body, ptr, rest) =
    (inl (omega (arith, body.inside)), Links-IndexApart f m es rest)

pub AllData-DataApart :
    (f : Bytes) (m : ℕ) (es : List Entry) → AllData f es → DataApart (length f) m es
AllData-DataApart f m [] h = tt
AllData-DataApart f m (e ∷ es) (here, rest) = (inl here.inside, AllData-DataApart f m es rest)
