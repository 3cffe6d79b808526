-- ===== src/Tools/TtyModes/Restored.antt =====
-- A mode of the terminal is entered so that it can be left, or not at all.
use apue_2e.Base.{ℕ, ◌≡◌, ◌≢◌, inl, inr, refl, ap, ◌∙◌, Bool, true, false, Bool-cases, pos}
use apue_2e.Tools.TtyModes.{
  Termios, Mode, Tty, Setter, Rc, is_reset, cbreak_settings, is_cbreak, raw_settings, is_raw,
  put_back, verify, enter, tty_cbreak, tty_raw, tty_reset, tty_atexit, IsSetter, reset, raw, cbreak,
  done, einval, failed,
}

-- Either the mode is entered and `tty_atexit` and `tty_reset` put the old settings back, or they are in force.
pub data Entered (set : Setter) (old : Termios) (mode : Mode) (stuck : Termios → Bool)
    : Rc × Tty → Type 0 where
  entered :
      (u : Tty)
      → stuck u.settings ≡ true
      → u.mode ≡ mode
      → (tty_reset set u).0 ≡ done
      → (tty_reset set u).1.settings ≡ old
      → (tty_reset set u).1.mode ≡ reset
      → tty_atexit set u ≡ (tty_reset set u).1
      → Entered set old mode stuck (done, u)
  refused :
      (rc : Rc) (u : Tty)
      → rc ≢ done
      → u.settings ≡ old
      → u.mode ≡ reset
      → Entered set old mode stuck (rc, u)

module _ (set : Setter) (old : Termios) (is : IsSetter set old) (mode : Mode)
    (stuck : Termios → Bool) (k : ℕ) (busy : is_reset mode ≡ false) where
  back-Entered :
      (rc : Rc) (u : Tty)
      → rc ≢ done
      → u.saved ≡ old
      → u.mode ≡ reset
      → Entered set old mode stuck (rc, put_back set u)
  unfolding put_back
  back-Entered rc u ne e r =
      let puts : set u.settings u.saved ≡ (true, old) =
        ap (set u.settings) e ∙ is.restores u.settings in
      refused rc (put_back set u) ne (ap (λ p. p.1) puts) r

  held-Entered :
      (u : Tty)
      → u.saved ≡ old
      → stuck u.settings ≡ true
      → Entered set old mode stuck (done, record u { mode = mode; savefd = pos k })
  unfolding tty_reset tty_atexit
  held-Entered u e h =
      let puts : set u.settings u.saved ≡ (true, old) =
        ap (set u.settings) e ∙ is.restores u.settings in
      entered (record u { mode = mode; savefd = pos k }) h refl (rw (busy, puts) refl)
        (rw (busy, puts) refl) (rw (busy, puts) refl) refl

  verify-Entered :
      (again : Bool) (u : Tty)
      → u.saved ≡ old
      → u.mode ≡ reset
      → Entered set old mode stuck (verify set again stuck mode (pos k) u)
  unfolding verify
  verify-Entered false u e r = back-Entered failed u (λ c. cc c) e r
  verify-Entered true u e r = elim (Bool-cases (stuck u.settings)) [
    | inl h ↦ rw h (held-Entered u e h)
    | inr h ↦ rw h (back-Entered einval u (λ c. cc c) e r)
  ]

  enter-Entered :
      (change : Termios → Termios) (first again : Bool) (s : Tty)
      → s.mode ≡ reset
      → s.settings ≡ old
      → Entered set old mode stuck (enter change stuck mode set first again (pos k) s)
  unfolding enter is_reset
  enter-Entered change false again s r o =
      let free : is_reset s.mode ≡ true = ap is_reset r in
      rw free (refused failed s (λ c. cc c) o r)
  enter-Entered change true again s r o =
      let free : is_reset s.mode ≡ true = ap is_reset r in
      let t = (set s.settings (change s.settings)).1 in
      let u = record s { saved = s.settings; settings = t } in
      elim (Bool-cases (set s.settings (change s.settings)).0) [
        | inl h ↦ rw (free, h) (verify-Entered again u o r)
        | inr h ↦
            rw (free, h)
              (refused failed u (λ c. cc c) (is.keeps s.settings (change s.settings) h ∙ o) r)
      ]

-- Where a failing tcsetattr changes nothing and the settings in force can be put back, `tty_cbreak` and
-- `tty_raw` in the state `RESET` leave one of two situations. Either they return 0, the settings pass the
-- test of the mode, and `tty_reset` succeeds and puts back the old settings and the state, as `tty_atexit`
-- does; or they return -1, and the old settings and the state are as before.
pub tty_raw-Entered :
    (set : Setter) (first again : Bool) (k : ℕ) (s : Tty)
    → s.mode ≡ reset
    → IsSetter set s.settings
    → Entered set s.settings cbreak is_cbreak (tty_cbreak set first again (pos k) s)
      × Entered set s.settings raw is_raw (tty_raw set first again (pos k) s)
unfolding tty_cbreak tty_raw is_reset
tty_raw-Entered set first again k s r is = (
  enter-Entered set s.settings is cbreak is_cbreak k refl cbreak_settings first again s r refl,
  enter-Entered set s.settings is raw is_raw k refl raw_settings first again s r refl,
)
