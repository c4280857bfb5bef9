-- ===== src/Safety/WritePaths.antt =====
-- Which remote paths a write is refused for.
use sshw.Base.{Bool, false, Text, ◌≡◌, ◌↔◌, arith, Member, any-eq-true, any_of_Member}
use sshw.Policy.Paths.{path_within}
use sshw.Policy.Paths.Containment.{Under, path_within-Under}
use sshw.Safety.{block, write_to, system_paths, classify_remote_write_path}

-- Without consent a write is blocked exactly if its path is a system path or lies under one; with
-- consent it never is.
pub classify_remote_write_path-Under :
    (path : Text) (yes' : Bool)
    → (classify_remote_write_path path yes' ≡ block (write_to path))
      ↔ ((yes' ≡ false) × ((base : Text) × Member base system_paths × Under base path))
unfolding classify_remote_write_path
classify_remote_write_path-Under path yes' = (
  λ h.
      let (base, m, w) = any-eq-true (λ base. path_within base path) system_paths (ground arith) in
      (ground arith, (base, m, (path_within-Under base path).0 w)),
  λ (n, (base, m, u)). ground (
    arith,
    any_of_Member (λ b. path_within b path) base system_paths m ((path_within-Under base path).1 u),
  ),
)
