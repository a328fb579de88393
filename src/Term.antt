-- ===== src/Term.antt =====
-- pwned-lib/util.cpp: the local flags of the terminal, of `TermIO` and `setStdinEcho`.
pub mod Switches
use pwned.Base.{ℕ, Bool, true, false, not, ◌&&◌, ◌||◌, ◌==◌, List, if◌then◌else◌}

-- `c_lflag`, by the numbers of its bits.
abbrev pub Flags : Type 0
Flags = ℕ → Bool

-- `struct termios`, with all but the local flags in `others`.
pub record Termios : Type 0 where
  pub lflag : Flags
  pub others : List ℕ

-- `c_lflag &= ~FLAG`, `c_lflag |= FLAG` and `c_lflag |= ~FLAG`, for a flag of one bit.
unfoldable pub and_not : ℕ → Termios → Termios
and_not flag t = record t { lflag = λ i. t.lflag i && not (i == flag) }

unfoldable pub or_flag : ℕ → Termios → Termios
or_flag flag t = record t { lflag = λ i. t.lflag i || i == flag }

unfoldable pub or_not : ℕ → Termios → Termios
or_not flag t = record t { lflag = λ i. t.lflag i || not (i == flag) }

pub record TermIo : Type 0 where
  pub old_t : Termios

-- The constructor and the destructor.
unfoldable pub new_term_io : Termios → TermIo
new_term_io terminal = record { old_t = terminal }

unfoldable pub delete_term_io : TermIo → Termios → Termios
delete_term_io io terminal = io.old_t

-- The bits of `ICANON`, `ECHO` and `ISIG` are those of the system.
module _ (icanon echo isig : ℕ) where
  unfoldable pub disable_echo : Termios → Termios
  disable_echo terminal = and_not echo (and_not icanon terminal)

  unfoldable pub enable_echo : Termios → Termios
  enable_echo terminal = or_not echo (or_flag icanon terminal)

  unfoldable pub disable_break : Termios → Termios
  disable_break terminal = and_not isig terminal

  unfoldable pub enable_break : Termios → Termios
  enable_break terminal = or_not isig terminal

  unfoldable pub set_stdin_echo : Bool → Termios → Termios
  set_stdin_echo enable tty = if not enable then and_not echo tty else or_flag echo tty
