-- ===== src/Users/Mapper.antt =====
-- src/modules/users/user.mapper.ts. An error of a mapper is `none`: every caller replaces it.
use nestjs_learn.Prelude.{ℕ, Bool, Option, none, some, String, ◌==◌, if◌then◌else◌}
use nestjs_learn.Schema.{
  User, UserRole, Department, cntt, kinhtoe, marketing, ngoaingu, luat, quanly, kythuat,
}
use nestjs_learn.Text.{Unicode, trim}

abbrev pub department_map : Department → String
department_map cntt = "cntt"
department_map kinhtoe = "kinhtoe"
department_map marketing = "marketing"
department_map ngoaingu = "ngoaingu"
department_map luat = "luat"
department_map quanly = "quanly"
department_map kythuat = "kythuat"

abbrev pub map_department_to_frontend : Option Department → Option String
map_department_to_frontend none = none
map_department_to_frontend (some d) = some (department_map d)

-- `enumCandidate in departmentMap`: no name of `Object.prototype` is in upper case throughout.
abbrev pub department_of_enum : String → Option Department
department_of_enum s =
    if s == "CNTT"
    then some cntt
    else if s == "KINHTOE"
    then some kinhtoe
    else if s == "MARKETING"
    then some marketing
    else if s == "NGOAINGU"
    then some ngoaingu
    else if s == "LUAT"
    then some luat
    else if s == "QUANLY"
    then some quanly
    else if s == "KYTHUAT"
    then some kythuat
    else none

-- `Object.entries(departmentMap).find(…)`.
abbrev pub department_of_value : String → Option Department
department_of_value s =
    if s == "cntt"
    then some cntt
    else if s == "kinhtoe"
    then some kinhtoe
    else if s == "marketing"
    then some marketing
    else if s == "ngoaingu"
    then some ngoaingu
    else if s == "luat"
    then some luat
    else if s == "quanly"
    then some quanly
    else if s == "kythuat"
    then some kythuat
    else none

unfoldable pub map_department_from_frontend : Unicode → String → Option Department
map_department_from_frontend u value =
    let normalized = u.to_lower (trim value) in
    elim (department_of_enum (u.to_upper normalized)) [
      | none ↦ department_of_value normalized
      | some d ↦ some d
    ]

-- `role.toLowerCase()`.
abbrev pub lower_role : UserRole → String
lower_role UserRole.user = "user"
lower_role UserRole.admin = "admin"

-- The object that `mapUserToFrontend` returns.
pub record FrontendUser : Type 0 where
  pub id : String
  pub name : String
  pub email : String
  pub student_id : String
  pub department : String
  pub avatar : Option String
  pub verified : Bool
  pub created_at : ℕ
  pub last_seen : Option ℕ
  pub online : Bool
  pub role : String

abbrev pub or_else : {A : Type 0} → Option A → A → A
or_else none a = a
or_else (some x) a = x

unfoldable pub map_user_to_frontend : User → FrontendUser
map_user_to_frontend user = record {
  id = user.id;
  name = user.name;
  email = user.email;
  student_id = user.student_id;
  department = or_else (map_department_to_frontend user.department) "cntt";
  avatar = user.avatar_url;
  verified = user.is_verified;
  created_at = user.created_at;
  last_seen = user.last_seen;
  online = user.is_online;
  role = lower_role user.role;
}
