-- ===== src/Auth/Otp.antt =====
-- The one-time codes: what verifying one uses up, and who can get one.
use nestjs_learn.Prelude.{
  ℕ, ◌≡◌, ◌<◌, ◌≤◌, refl, sym, subst, Bool, true, false, some, List, [], ◌∷◌, ◌++◌, Memᴰ, String,
  arith, Option-cases, Bool-cases, inl, inr, count, map_where, All, eq_iff, ◌==◌,
}
use nestjs_learn.Prisma.{Prisma}
use nestjs_learn.Schema.{User, OtpVerification}
use nestjs_learn.Text.{trim}
use nestjs_learn.World.{World, ok, err, Exception, cookie_set, bad_request, conflict}
use nestjs_learn.Users.Mapper.{FrontendUser, map_department_from_frontend}
use nestjs_learn.Auth.{
  AuthEnv, RegisterDto, is_live, newest_otp, with_used, has_email, has_id, verified_in, verify_otp,
  sign_token, is_taken, register,
}

module _ (email code : String) (now : ℕ) (id : String) where
  abbrev live : OtpVerification → Bool
  live = is_live email code now

  abbrev same_id : OtpVerification → Bool
  same_id o = o.id == id

  used_not_live : (o : OtpVerification) → live (with_used o) ≡ false
  used_not_live o = ground arith

  -- Marking codes as used makes no code live.
  marked_le :
      (rows : List OtpVerification)
      → count live (map_where same_id with_used rows) ≤ count live rows
  marked_le [] = omega arith
  marked_le (o ∷ rows) = let rest = marked_le rows in let dead = used_not_live o in ground arith

  -- A live code that is marked is live no more.
  marked_lt :
      (rows : List OtpVerification) (o : OtpVerification)
      → Memᴰ o rows
      → o.id ≡ id
      → live o ≡ true
      → count live (map_where same_id with_used rows) < count live rows
  marked_lt [] o m e h = elim m [ ]
  marked_lt (x ∷ rows) o (Memᴰ.head same) e h =
      let rest = marked_le rows in
      let dead = used_not_live x in
      let this : same_id x ≡ true = ground (arith, eq_iff x.id id) in
      let alive : live x ≡ true = rw same at h in rw (this, dead, alive) (omega (arith, rest))
  marked_lt (x ∷ rows) o (Memᴰ.tail m) e h =
      let rest = marked_lt rows o m e h in let dead = used_not_live x in ground arith

verified_rows :
    (id : String) (now : ℕ) (rows : List User)
    → All (λ x. x.id ≡ id → x.is_verified ≡ true) (map_where (has_id id) (verified_in now) rows)
verified_rows id now [] = tt
verified_rows id now (x ∷ rows) =
    ((λ same. ground (arith, eq_iff x.id id)), verified_rows id now rows)

module _ (db : Prisma) (env : AuthEnv) (now : ℕ) where
  -- Where `verifyOtp` succeeds, the table of users had one of that e-mail address, who is verified
  -- in every row of that identifier now; the codes that would pass for the address and the code are
  -- fewer than before, and the cookie of the session is all that left the process.
  pub verify_otp_uses_code :
      (address code_text : String) (w w' : World) (view : FrontendUser)
      → verify_otp db env now address code_text w ≡ (ok view, w')
      → (count (is_live (env.unicode.to_lower (trim address)) (trim code_text) now) w'.otps
          < count (is_live (env.unicode.to_lower (trim address)) (trim code_text) now) w.otps)
        × (user : User) × Memᴰ user w.users
        × (user.email ≡ env.unicode.to_lower (trim address))
        × All (λ x. x.id ≡ user.id → x.is_verified ≡ true) w'.users
        × (w'.effects ≡ w.effects ++ cookie_set (sign_token db env now user.id user.role) ∷ [])
  unfolding verify_otp
  verify_otp_uses_code address code_text w w' view e =
      let email = env.unicode.to_lower (trim address) in
      let code = trim code_text in
      elim (Option-cases (db.find_first (is_live email code now) newest_otp w.otps)) [
        | inl missing ↦ absurd (ground arith)
        | inr (o, live_one) ↦ elim (Option-cases (db.find_first (has_email email) [] w.users)) [
          | inl missing ↦ absurd (ground arith)
          | inr (user, found) ↦
              let users : List User =
                (db.update_many (has_id user.id) (verified_in now) w.users).0 in
              elim (Option-cases (db.find_first (has_id user.id) [] users)) [
                | inl missing ↦ absurd (ground arith)
                | inr (again, refound) ↦
                    let (mo, passed) = db.find_first_sound _ newest_otp w.otps o live_one in
                    let (mu, same) = db.find_first_sound (has_email email) [] w.users user found in
                    let otps : w'.otps ≡ map_where (λ x. x.id == o.id) with_used w.otps = ground (
                      arith,
                      db.update_many_rows (λ (x : OtpVerification). x.id == o.id) with_used w.otps,
                    ) in
                    let kept : w'.users ≡ map_where (has_id user.id) (verified_in now) w.users =
                      ground
                        (arith, db.update_many_rows (has_id user.id) (verified_in now) w.users) in
                    (
                      subst
                          (λ (rows : List OtpVerification).
                            count (is_live email code now) rows
                            < count (is_live email code now) w.otps)
                          (sym otps) (marked_lt email code now o.id w.otps o mo refl passed),
                      user,
                      mu,
                      (eq_iff user.email email).0 same,
                      subst (All (λ x. x.id ≡ user.id → x.is_verified ≡ true)) (sym kept)
                          (verified_rows user.id now w.users),
                      ground arith,
                    )
              ]
        ]
      ]

  -- Nobody can take over an account by registering again: for an address with a verified account,
  -- `register` is refused and changes nothing, whatever the request holds.
  pub register_keeps_verified :
      (payload : RegisterDto) (draw : ℕ) (w : World) (user : User)
      → db.find_first (has_email (env.unicode.to_lower (trim payload.email))) [] w.users ≡ some user
      → user.is_verified ≡ true
      → (x : Exception) × (register db env now payload draw w ≡ (err x, w))
  unfolding register
  register_keeps_verified payload draw w user found verified =
      let email = env.unicode.to_lower (trim payload.email) in
      elim (Option-cases (map_department_from_frontend env.unicode payload.department)) [
        | inl unknown ↦ (bad_request "Invalid department value", rw unknown refl)
        | inr (d, known) ↦
            elim (Bool-cases (
              is_taken email
                (db.find_first (λ x. x.student_id == trim payload.student_id) [] w.users))) [
                  | inl taken ↦ (conflict "studentId already exists", rw (known, taken) refl)
                  | inr free ↦
                      (conflict "email already exists", rw (known, free, found, verified) refl)
                ]
      ]
