-- ===== src/Auth/Laws.antt =====
-- What the policy lets each role do, and what the gate does with it.
use airport_inspection_platf.Auth.{
  Auth, Gate, Permission, Role, admin, forbidden, incident_read, includes, is_allowed, operator,
  pass, require_role, reviewer, roles_for, unauthorized,
}
use airport_inspection_platf.Prelude.{Bool, Option, arith, false, none, refl, some, true, ◌↔◌, ◌≡◌}

includes-roles_for :
    (r : Role) (permission : Permission)
    → includes r (roles_for permission) ≡ is_allowed r permission
unfolding is_allowed roles_for
includes-roles_for operator permission = refl
includes-roles_for reviewer permission = refl
includes-roles_for admin permission = refl

abbrev gate_of : Bool → Gate
gate_of true = pass
gate_of false = forbidden

require_role-some :
    (a : Auth) (permission : Permission)
    → require_role (roles_for permission) (some a) ≡ gate_of (is_allowed a.role permission)
unfolding require_role
require_role-some a permission = ground (arith, includes-roles_for a.role permission)

-- The gate of a route passes exactly an authenticated caller whose role the policy allows; without authentication it answers 401, otherwise 403.
pub require_role_iff :
    (permission : Permission) (auth : Option Auth)
    → ((require_role (roles_for permission) auth ≡ pass)
        ↔ ((a : Auth) × (auth ≡ some a) × (is_allowed a.role permission ≡ true)))
      × ((require_role (roles_for permission) auth ≡ unauthorized) ↔ (auth ≡ none))
      × ((require_role (roles_for permission) auth ≡ forbidden)
          ↔ ((a : Auth) × (auth ≡ some a) × (is_allowed a.role permission ≡ false)))
unfolding require_role
require_role_iff permission none = (
  (λ e. absurd (ground arith), λ (a, e, h). absurd (ground arith)),
  (λ e. refl, λ e. refl),
  (λ e. absurd (ground arith), λ (a, e, h). absurd (ground arith)),
)
require_role_iff permission (some a) =
    let gate = require_role-some a permission in
    (
      (λ e. (a, refl, ground (arith, gate)), λ (b, e, h). ground (arith, gate)),
      (λ e. absurd (ground (arith, gate)), λ e. absurd (ground arith)),
      (λ e. (a, refl, ground (arith, gate)), λ (b, e, h). ground (arith, gate)),
    )

-- Whatever an operator may do a reviewer may do, and whatever a reviewer may do an admin may do.
pub is_allowed_mono :
    (permission : Permission)
    → (is_allowed operator permission ≡ true → is_allowed reviewer permission ≡ true)
      × (is_allowed reviewer permission ≡ true → is_allowed admin permission ≡ true)
unfolding is_allowed
is_allowed_mono incident_read = ground arith
is_allowed_mono _ = ground arith
