-- ===== src/Tests/Tty.antt =====
-- lib/ttymodes.c on a terminal that takes all settings, and on one that keeps its echo.
use apue_2e.Base.{◌≡◌, refl, true, false, pos, negsuc}
use apue_2e.Tools.TtyModes.{
  Termios, Tty, Setter, reset, raw, cbreak, einval, is_cbreak, is_raw, tty_cbreak, tty_raw,
  cbreak_settings, IsSetter,
}
use apue_2e.Tools.TtyModes.Restored.{Entered, tty_raw-Entered}

abbrev cooked : Termios
cooked = record {
  echo = true;
  icanon = true;
  iexten = true;
  isig = true;
  brkint = false;
  icrnl = true;
  inpck = false;
  istrip = false;
  ixon = true;
  parenb = false;
  opost = true;
  char_bits = 8;
  vmin = 4;
  vtime = 0;
  other = 0;
}

abbrev idle : Tty
idle = record { settings = cooked; saved = cooked; mode = reset; savefd = negsuc 0 }

abbrev obedient : Setter
obedient t u = (true, u)

-- Echo cannot be turned off.
abbrev stubborn : Setter
stubborn t u = (true, record u { echo = true })

stubborn_rc : (tty_cbreak stubborn true true (pos 0) idle).0 ≡ einval
unfolding tty_cbreak cbreak_settings is_cbreak
stubborn_rc = refl

obedient-IsSetter : IsSetter obedient cooked
obedient-IsSetter = record { keeps = λ t u h. absurd (cc h); restores = λ t. refl }

tty_raw-Entered_example :
    Entered obedient cooked cbreak is_cbreak (tty_cbreak obedient true true (pos 0) idle)
    × Entered obedient cooked raw is_raw (tty_raw obedient true true (pos 0) idle)
tty_raw-Entered_example = tty_raw-Entered obedient true true 0 idle refl obedient-IsSetter
