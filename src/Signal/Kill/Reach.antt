-- ===== src/Signal/Kill/Reach.antt =====
-- What a `kill` cannot reach.
use fiwix_arm.Base.{Bool, List, Option, none, some}
use fiwix_arm.Process.{Proc}
use fiwix_arm.Signal.{Status}
use fiwix_arm.Signal.Reap.{Procs}
use fiwix_arm.Signal.Kill.Changes.{Untouched}

-- What a scan for children leaves
abbrev Scanned : Proc → List Proc → Option (Bool × List Proc) → Type 0
Scanned current ps none = Unit
Scanned current ps (some (removed, ps')) = Untouched current ps ps'

abbrev Waited : Proc → Procs → Option Procs → Type 0
Waited current st none = Unit
Waited current st (some st') = Untouched current st.table st'.table

-- What a call leaves, whatever it returns
abbrev Spares : Proc → Procs → Procs × Status → Type 0
Spares current st r = Untouched current st.table r.0.table
