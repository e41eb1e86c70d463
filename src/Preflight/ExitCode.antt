-- ===== src/Preflight/ExitCode.antt =====
-- internal/exitcode: the exit codes that the preflight policy gives.
use reinstate.Base.{ℕ}

abbrev pub ok : ℕ
ok = 0

abbrev pub runtime : ℕ
runtime = 1

abbrev pub usage : ℕ
usage = 2

abbrev pub compatibility : ℕ
compatibility = 5

abbrev pub safety : ℕ
safety = 7
