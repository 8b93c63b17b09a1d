-- ===== src/Controlchannel/EnvFile.antt =====
-- The lines of the file, as systemd reads them.
use rdda.Common.{Bool, not, Str, ◌==◌, nat_eq, str_instance, all}

-- A text of one line.
abbrev pub one_line : Str → Bool
one_line s = all (λ c. not (c == 10)) s
