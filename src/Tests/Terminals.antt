-- ===== src/Tests/Terminals.antt =====
-- The switches of the terminal with the bits of Linux.
use pwned.Base.{◌==◌, []}
use pwned.Term.{Termios}

abbrev terminal : Termios
terminal = record { lflag = λ i. i == 3; others = [] }
