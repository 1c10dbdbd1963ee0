-- ===== src/Guards/Access.antt =====
-- apps/api-gateway/src/authz/guards: the guards by the kind of the caller.
use ngotag_platform.Guards.{User, is_allow, client_access_guard, user_access_guard, user_role_guard}
use ngotag_platform.Common.{◌≡◌, not, ◌&&◌, some, arith}

-- A signed-in user passes UserAccessGuard exactly if both ClientAccessGuard, which admits the clients
-- of organisations, and UserRoleGuard, which admits holders, refuse them.
user_access_guard-allow :
    (u : User)
    → is_allow (user_access_guard (some u))
      ≡ (not (is_allow (client_access_guard (some u))) && not (is_allow (user_role_guard (some u))))
unfolding user_access_guard client_access_guard user_role_guard
user_access_guard-allow u = ground arith
