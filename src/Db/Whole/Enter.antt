-- ===== src/Db/Whole/Enter.antt =====
-- A record is written into its room and enters the front of a list.
use apue_2e.Base.{
  ℕ, ◌+◌, ◌≤◌, ◌≡◌, ap, sym, ◌∙◌, subst, List, ◌∷◌, ◌++◌, [], arith, length, length-append,
}
use apue_2e.Files.{Bytes, write_at}
use apue_2e.CText.{padded, decimal}
use apue_2e.Db.State.{ptr_sz, ptr_max, idxlen_sz, newline, sep}
use apue_2e.Db.Fields.RoundTrip.{length-line, DataAt-line}
use apue_2e.Db.Index.{print_record, print_header}
use apue_2e.Db.Index.RoundTrip.{entry, image, length-print_header, PtrAt-image, BodyAt-image}
use apue_2e.Db.Layout.{Entry, BodyAt, head_of}
use apue_2e.Db.Whole.{IsWhole, Holds, Room}
use apue_2e.Db.Whole.Moves.{slot, place-Holds, front-Holds, spread, head_near}

pub length-print_record :
    (k k' : Bytes) (a b : ℕ)
    → length k ≡ length k'
    → length (print_record k a b) ≡ length (print_record k' a b)
unfolding print_record
length-print_record k k' a b h =
    let rest = length (sep ∷ (decimal a ++ (sep ∷ (decimal b ++ newline ∷ [])))) in
    length-append k _ ∙ ap (λ n. n + rest) h ∙ sym (length-append k' _)

module _ (e : Entry) (w : IsWhole e) where
  pub length-image :
      (p : ℕ)
      → p ≤ ptr_max
      → length (image p e.key e.datoff e.datlen) ≡ ptr_sz + idxlen_sz + e.idxlen
  length-image p h = omega (
    arith,
    w.size,
    length-print_header p (length (print_record e.key e.datoff e.datlen)) h w.fits.high,
    length-append {0} (print_header p (length (print_record e.key e.datoff e.datlen)))
        (print_record e.key e.datoff e.datlen),
  )

  as_entry : entry e.off e.key e.datoff e.datlen e.text ≡ e
  as_entry =
      ap
        (λ n. record {
          off = e.off;
          idxlen = n;
          key = e.key;
          datoff = e.datoff;
          datlen = e.datlen;
          text = e.text;
        })
        (sym w.size)

  pub list_head_near :
      (f g : Bytes) (ks : List (List Entry)) (l : List Entry) (bs : List (List Entry))
      → Holds f g (ks ++ l ∷ bs)
      → head_of l ≤ ptr_max
  list_head_near f g ks l bs h = head_near l (spread IsWhole ks l bs h.whole).1.0

  pub enter-Holds :
      (f g : Bytes) (ks : List (List Entry)) (l : List Entry) (bs : List (List Entry))
      → Holds f g (ks ++ l ∷ bs)
      → Room (ks ++ l ∷ bs) e
      → Holds
          (write_at
            (write_at f e.off (image (head_of l) e.key e.datoff e.datlen))
            (slot ks)
            (padded ptr_sz e.off))
          (write_at g e.datoff (e.text ++ newline ∷ []))
          (ks ++ (e ∷ l) ∷ bs)
  enter-Holds f g ks l bs h r =
      let low = list_head_near f g ks l bs h in
      front-Holds _ _ ks l bs e
        (place-Holds f g (ks ++ l ∷ bs) e _ _ (length-image (head_of l) low)
          (length-line e.text ∙ sym w.line) h r)
        r w
        (subst (BodyAt _) as_entry
          (BodyAt-image f e.off (head_of l) e.key e.datoff e.datlen e.text low w.fits))
        (PtrAt-image f e.off (head_of l) e.key e.datoff e.datlen e.text low w.fits)
        (DataAt-line g e w.clean w.line)
