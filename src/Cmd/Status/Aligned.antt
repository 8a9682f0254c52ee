-- ===== src/Cmd/Status/Aligned.antt =====
-- The columns of the command status, cmd/status.go.
use zackup.Base.{ℕ, ◌++◌, Str, codes, length, ◌≡◌}
use zackup.Config.Tree.{Tree}
use zackup.App.Metrics.{Metrics}
use zackup.App.State.{State}

-- The line has a first column of this width, and two spaces after it.
abbrev pub IsAligned : ℕ → Str → Type 0
IsAligned n l = (column rest : Str) × (l ≡ column ++ (codes "  " ++ rest)) × (length column ≡ n)
