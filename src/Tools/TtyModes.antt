-- ===== src/Tools/TtyModes.antt =====
-- lib/ttymodes.c: a terminal in cbreak or raw mode, and back. What tcgetattr(3) and tcsetattr(3) do at each
-- call is an argument: whether the settings can be read, and for the settings in force and those asked for
-- whether the call succeeds and which settings are then in force.
pub mod Restored
use apue_2e.Base.{
  ℕ, ◌==◌, ◌≡◌, ◌≢◌, inl, inr, refl, ap, ◌∙◌, Bool, true, false, ◌||◌, not, if◌then◌else◌,
  Bool-cases, ℤ, pos, negsuc,
}

-- `struct termios`: the flags that this file changes, the bits per character, and all other settings.
pub record Termios : Type 0 where
  pub echo : Bool
  pub icanon : Bool
  pub iexten : Bool
  pub isig : Bool
  pub brkint : Bool
  pub icrnl : Bool
  pub inpck : Bool
  pub istrip : Bool
  pub ixon : Bool
  pub parenb : Bool
  pub opost : Bool
  pub char_bits : ℕ
  pub vmin : ℕ
  pub vtime : ℕ
  pub other : ℕ

-- `ttystate`
pub data Mode : Type 0 where
  reset raw cbreak : Mode

-- The settings in force, and `save_termios`, `ttystate` and `ttysavefd`.
pub record Tty : Type 0 where
  pub settings : Termios
  pub saved : Termios
  pub mode : Mode
  pub savefd : ℤ

abbrev pub Setter : Type 0
Setter = Termios → Termios → Bool × Termios

-- 0, -1 with `EINVAL`, or -1 with what a call left in `errno`.
pub data Rc : Type 0 where
  done einval failed : Rc

unfoldable pub is_reset : Mode → Bool
is_reset reset = true
is_reset raw = false
is_reset cbreak = false

-- The settings that `tty_cbreak` asks for, and its test that they are in force.
unfoldable pub cbreak_settings : Termios → Termios
cbreak_settings t = record t { echo = false; icanon = false; vmin = 1; vtime = 0 }

unfoldable pub is_cbreak : Termios → Bool
is_cbreak t = not ((t.echo || t.icanon) || (not (t.vmin == 1) || not (t.vtime == 0)))

-- Those of `tty_raw`
unfoldable pub raw_settings : Termios → Termios
raw_settings t = record t {
  echo = false;
  icanon = false;
  iexten = false;
  isig = false;
  brkint = false;
  icrnl = false;
  inpck = false;
  istrip = false;
  ixon = false;
  parenb = false;
  char_bits = 8;
  opost = false;
  vmin = 1;
  vtime = 0;
}

unfoldable pub is_raw : Termios → Bool
is_raw t = not (
    ((t.echo || t.icanon) || (t.iexten || t.isig))
    || ((t.brkint || (t.icrnl || (t.inpck || (t.istrip || t.ixon))))
        || ((not (t.char_bits == 8) || t.parenb)
            || (t.opost || (not (t.vmin == 1) || not (t.vtime == 0))))))

-- `tcsetattr(fd, TCSAFLUSH, &save_termios)` with its result left aside
unfoldable pub put_back : Setter → Tty → Tty
put_back set s = record s { settings = (set s.settings s.saved).1 }

-- Behind the first `tcsetattr`: the settings are read again and tested.
unfoldable pub verify : Setter → Bool → (Termios → Bool) → Mode → ℤ → Tty → Rc × Tty
unfolding put_back
verify set again stuck mode fd s =
    if again
    then (if stuck s.settings
        then (done, record s { mode = mode; savefd = fd })
        else (einval, put_back set s))
    else (failed, put_back set s)

-- The course of `tty_cbreak` and `tty_raw`; `first` and `again` say whether `tcgetattr` succeeds.
unfoldable pub enter :
    (Termios → Termios) → (Termios → Bool) → Mode → Setter → Bool → Bool → ℤ → Tty → Rc × Tty
unfolding is_reset verify
enter change stuck mode set first again fd s =
    if not (is_reset s.mode)
    then (einval, s)
    else if not first
    then (failed, s)
    else (let (well, t) = set s.settings (change s.settings) in
        let u = record s { saved = s.settings; settings = t } in
        if well then verify set again stuck mode fd u else (failed, u))

-- `tty_cbreak`
unfoldable pub tty_cbreak : Setter → Bool → Bool → ℤ → Tty → Rc × Tty
unfolding enter cbreak_settings is_cbreak
tty_cbreak = enter cbreak_settings is_cbreak cbreak

-- `tty_raw`
unfoldable pub tty_raw : Setter → Bool → Bool → ℤ → Tty → Rc × Tty
unfolding enter raw_settings is_raw
tty_raw = enter raw_settings is_raw raw

-- `tty_reset`
unfoldable pub tty_reset : Setter → Tty → Rc × Tty
unfolding is_reset
tty_reset set s =
    let (well, t) = set s.settings s.saved in
    if is_reset s.mode
    then (done, s)
    else if well
    then (done, record s { settings = t; mode = reset })
    else (failed, record s { settings = t })

-- `tty_atexit`
unfoldable pub tty_atexit : Setter → Tty → Tty
unfolding tty_reset
tty_atexit set s = elim s.savefd [ pos fd ↦ (tty_reset set s).1 | negsuc n ↦ s ]

-- A failing `tcsetattr` changes nothing, and settings that were in force can be put back.
pub record IsSetter (set : Setter) (old : Termios) : Type 0 where
  pub keeps : (t u : Termios) → (set t u).0 ≡ false → (set t u).1 ≡ t
  pub restores : (t : Termios) → set t old ≡ (true, old)
