-- ===== src/Access/Roles.antt =====
-- `Permission` and `ROLE_PERMISSIONS` of app/security.py.
use kz_home_core.Common.{Bool, true, false, List, [], ◌∷◌, any}

pub data Permission : Type 0 where
  house_read house_manage member_read member_manage device_read : Permission
  device_control device_manage device_onboard scene_read scene_run : Permission
  scene_manage automation_read automation_manage event_read security_audit_read : Permission

-- The roles that the table's check constraint allows.
pub data Role : Type 0 where
  owner installer technician resident : Role

abbrev pub roles : List Role
roles = owner ∷ installer ∷ technician ∷ resident ∷ []

-- `permission in ROLE_PERMISSIONS[role]`
unfoldable pub is_granted : Role → Permission → Bool
is_granted owner p = true
is_granted installer house_manage = false
is_granted installer member_read = false
is_granted installer member_manage = false
is_granted installer security_audit_read = false
is_granted installer _ = true
is_granted technician house_read = true
is_granted technician device_read = true
is_granted technician device_control = true
is_granted technician device_manage = true
is_granted technician event_read = true
is_granted technician _ = false
is_granted resident house_read = true
is_granted resident device_read = true
is_granted resident device_control = true
is_granted resident scene_read = true
is_granted resident scene_run = true
is_granted resident _ = false

abbrev pub is_owner : Role → Bool
is_owner owner = true
is_owner _ = false

abbrev pub role_eq : Role → Role → Bool
role_eq owner owner = true
role_eq installer installer = true
role_eq technician technician = true
role_eq resident resident = true
role_eq _ _ = false

-- `membership.role.in_(roles)`
abbrev pub is_among : List Role → Role → Bool
is_among rs r = any (role_eq r) rs
