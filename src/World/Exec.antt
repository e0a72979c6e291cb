-- ===== src/World/Exec.antt =====
-- The world of the services, exceptions and the monad.
use nestjs_learn.Prelude.{
  ℕ, ◌+◌, Bool, true, false, Option, none, some, List, [], ◌∷◌, ◌++◌, String,
}
use nestjs_learn.Prisma.{Prisma}
use nestjs_learn.Schema.{
  User, OtpVerification, Category, Listing, ListingImage, Conversation, ConversationParticipant,
  Message, Favorite, UserBlock, Report, Notification, ListingModerationRun, ListingModerationJob,
}

-- The exceptions, by the class that NestJS maps to a status, and those of other packages.
pub data Exception : Type 0 where
  bad_request unauthorized forbidden not_found conflict internal service_unavailable :
      String → Exception
  -- A known request error of Prisma, with its code.
  database : String → Exception
  -- A plain `Error`.
  plain : String → Exception

-- What a service sends out of the process, in order.
pub data Effect : Type 0 where
  -- `emit('notification:new', …)` to the room of a user.
  notified : String → Notification → Effect
  -- An e-mail with a code.
  mailed : String → String → Effect
  -- An image that is removed from the media store.
  destroyed : String → Effect
  -- The session cookie.
  cookie_set : String → Effect
  cookie_cleared : Effect

pub record World : Type 0 where
  pub users : List User
  pub otps : List OtpVerification
  pub categories : List Category
  pub listings : List Listing
  pub images : List ListingImage
  pub conversations : List Conversation
  pub participants : List ConversationParticipant
  pub messages : List Message
  pub favorites : List Favorite
  pub blocks : List UserBlock
  pub reports : List Report
  pub notifications : List Notification
  pub runs : List ListingModerationRun
  pub jobs : List ListingModerationJob
  -- How many identifiers the database has given out.
  pub issued : ℕ
  pub effects : List Effect

pub data Result (A : Type 0) : Type 0 where
  ok : A → Result A
  err : Exception → Result A

abbrev pub M : Type 0 → Type 0
M A = World → Result A × World

module _ {A B : Type 0} where
  abbrev pub run_next : Result A → (A → M B) → M B
  run_next (ok a) f w = f a w
  run_next (err e) f w = (err e, w)

  infixl 5 ◌>>=◌ ◌>>◌
  abbrev pub ◌>>=◌ : M A → (A → M B) → M B
  ◌>>=◌ m f w = run_next (m w).0 f (m w).1

  abbrev pub ◌>>◌ : M A → M B → M B
  ◌>>◌ m n w = run_next (m w).0 (λ _. n) (m w).1

module _ {A : Type 0} where
  abbrev pub pure : A → M A
  pure a w = (ok a, w)

  abbrev pub throw : Exception → M A
  throw e w = (err e, w)

  abbrev pub lift : Result A → M A
  lift r w = (r, w)

  abbrev pub gets : (World → A) → M A
  gets f w = (ok (f w), w)

  -- `if (!x) throw e`.
  abbrev pub require : Option A → Exception → M A
  require none e w = (err e, w)
  require (some a) e w = (ok a, w)

  abbrev pub recover : Result A → (Exception → M A) → M A
  recover (ok a) handle w = (ok a, w)
  recover (err e) handle w = handle e w

  -- `try { m } catch (e) { handle e }`.
  abbrev pub try_catch : M A → (Exception → M A) → M A
  try_catch m handle w = recover (m w).0 handle (m w).1

  abbrev pub roll_back : World → Result A → World → Result A × World
  roll_back before (ok a) after = (ok a, after)
  roll_back before (err e) after = (err e, before)

  -- `$transaction(async (tx) => m)`.
  abbrev pub transaction : M A → M A
  transaction m w = roll_back w (m w).0 (m w).1

abbrev pub modify : (World → World) → M (Unit {0})
modify f w = (ok tt, f w)

abbrev pub skip : M (Unit {0})
skip w = (ok tt, w)

abbrev pub when : Bool → M (Unit {0}) → M (Unit {0})
when true m w = m w
when false m w = (ok tt, w)

-- `if (bad) throw e`.
abbrev pub throw_if : Bool → Exception → M (Unit {0})
throw_if true e w = (err e, w)
throw_if false e w = (ok tt, w)

abbrev pub emit : Effect → M (Unit {0})
emit e w = (ok tt, record w { effects = w.effects ++ e ∷ [] })

-- The identifier of the next row.
abbrev pub fresh : Prisma → M String
fresh db w = (ok (db.cuid w.issued), record w { issued = w.issued + 1 })
