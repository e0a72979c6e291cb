-- ===== src/Auth/Session.antt =====
-- Who can sign in.
use nestjs_learn.Prelude.{
  ℕ, ◌≡◌, true, [], ◌∷◌, ◌++◌, Memᴰ, String, arith, Option-cases, inl, inr, eq_iff,
}
use nestjs_learn.Prisma.{Prisma}
use nestjs_learn.Schema.{User}
use nestjs_learn.Text.{trim}
use nestjs_learn.World.{World, ok, cookie_set}
use nestjs_learn.Users.Mapper.{FrontendUser}
use nestjs_learn.Auth.{AuthEnv, has_email, sign_token, login}

module _ (db : Prisma) (env : AuthEnv) (now : ℕ) where
  -- A login that succeeds is of a user of the table, by the trimmed address in lower case, who is
  -- active and verified and whose hash the password matches; the one thing that leaves the process
  -- is a cookie with a token for that user and the user's role.
  pub login_admits :
      (address password : String) (w w' : World) (view : FrontendUser)
      → login db env now address password w ≡ (ok view, w')
      → (user : User) × Memᴰ user w.users
        × (user.email ≡ env.unicode.to_lower (trim address))
        × (user.is_active ≡ true)
        × (env.compare password user.password_hash ≡ true)
        × (user.is_verified ≡ true)
        × (w'.effects ≡ w.effects ++ cookie_set (sign_token db env now user.id user.role) ∷ [])
  unfolding login
  login_admits address password w w' view e =
      let email = env.unicode.to_lower (trim address) in
      elim (Option-cases (db.find_first (has_email email) [] w.users)) [
        | inl missing ↦ absurd (ground arith)
        | inr (user, found) ↦
            let (m, same) = db.find_first_sound (has_email email) [] w.users user found in
            (
              user,
              m,
              (eq_iff user.email email).0 same,
              ground arith,
              ground arith,
              ground arith,
              ground arith,
            )
      ]
