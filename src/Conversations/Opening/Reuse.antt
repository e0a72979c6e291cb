-- ===== src/Conversations/Opening/Reuse.antt =====
-- Opening a conversation twice.
use nestjs_learn.Prelude.{
  ℕ, ◌+◌, ◌≡◌, ◌⊎◌, refl, ap, sym, ◌∙◌, true, false, not, ◌&&◌, ◌||◌, Option, none, some, List, [],
  ◌∷◌, ◌++◌, String, arith, Option-cases, Bool-cases, inl, inr, any, All, All-mono, any_of_mem,
  any-append, any-none, ◌==◌, eq_refl, Memᴰ, mem-append_last, mem-append_left,
}
use nestjs_learn.Prisma.{Prisma}
use nestjs_learn.Prisma.Laws.{find_first_of_mem}
use nestjs_learn.Schema.{Conversation, ConversationParticipant, User}
use nestjs_learn.Text.{trim}
use nestjs_learn.World.{World, Result, ok, err, Exception}
use nestjs_learn.World.Laws.{run_next-world, Result-cases}
use nestjs_learn.Conversations.{participant_of, seat_of}
use nestjs_learn.Conversations.Opening.{
  listing_id_of, same_listing, load_users, load_listing, conversation_include, is_between,
  find_existing, show_existing, show_new, open_new, check_listing, new_seat, create,
}

same_listing_refl : (id : Option String) → same_listing id id ≡ true
same_listing_refl none = refl
same_listing_refl (some a) = eq_refl a

module _ (db : Prisma) where
  load_users-world : (ps : List ConversationParticipant) (w : World) → (load_users db ps w).1 ≡ w
  unfolding load_users
  load_users-world [] w = refl
  load_users-world (p ∷ ps) w = let rest = load_users-world ps w in ground arith

  load_listing-world : (id : Option String) (w : World) → (load_listing db id w).1 ≡ w
  unfolding load_listing
  load_listing-world none w = refl
  load_listing-world (some id) w = ground arith

  conversation_include-world : (c : Conversation) (w : World) → (conversation_include db c w).1 ≡ w
  unfolding conversation_include
  conversation_include-world c w =
      run_next-world (load_listing db c.listing_id w) _ w (load_listing-world c.listing_id w) (λ l.
        run_next-world (load_users db (db.find_many (participant_of c.id) [] w.participants) w) _ w
          (load_users-world _ w) (λ ps. refl))

  show_existing-world :
      (user_id : String) (c : Conversation) (w : World) → (show_existing db user_id c w).1 ≡ w
  unfolding show_existing
  show_existing-world user_id c w =
      run_next-world (conversation_include db c w) _ w (conversation_include-world c w) (λ x. refl)

  show_new-world :
      (user_id : String) (c : Conversation) (w : World) → (show_new db user_id c w).1 ≡ w
  unfolding show_new
  show_new-world user_id c w =
      run_next-world (conversation_include db c w) _ w (conversation_include-world c w) (λ x. refl)

  module _ (now : ℕ) (user_id participant : String) (product_id : Option String) (w : World) where
    abbrev wanted : Option String
    wanted = listing_id_of product_id

    abbrev partner : String
    partner = trim participant

    -- The world with the new conversation.
    abbrev opened : World
    opened = (open_new db now wanted user_id partner w).1

    check_listing-world : (check_listing db wanted w).1 ≡ w
    unfolding check_listing
    check_listing-world = go wanted
      where
        go : (id : Option String) → (check_listing db id w).1 ≡ w
        go none = refl
        go (some id) = ground arith

    open_new_and_show :
        find_existing db wanted user_id partner w ≡ none
        → (partner == user_id) ≡ false
        → (x : User) → db.find_first (λ x. x.id == partner) [] w.users ≡ some x
        → (t : Unit {0}) → check_listing db wanted w ≡ (ok t, w)
        → (create db now user_id (participant, product_id) w).1 ≡ opened
    unfolding create open_new
    open_new_and_show absent other x found t passed =
        rw (other, found, passed, absent) (show_new-world user_id _ opened)

    refused :
        (partner == user_id) ≡ true → (create db now user_id (participant, product_id) w).1 ≡ w
    unfolding create
    refused self = rw self refl

    partner_missing :
        (partner == user_id) ≡ false
        → db.find_first (λ x. x.id == partner) [] w.users ≡ none
        → (create db now user_id (participant, product_id) w).1 ≡ w
    unfolding create
    partner_missing other missing = rw (other, missing) refl

    listing_missing :
        (partner == user_id) ≡ false
        → (x : User) → db.find_first (λ x. x.id == partner) [] w.users ≡ some x
        → (z : Exception) (v : World) → check_listing db wanted w ≡ (err z, v)
        → (create db now user_id (participant, product_id) w).1 ≡ w
    unfolding create
    listing_missing other x found z v failed =
        rw (other, found, failed)
          (sym (ap (λ (p : Result (Unit {0}) × World). p.1) failed) ∙ check_listing-world)

    show_served :
        (c : Conversation)
        → find_existing db wanted user_id partner w ≡ some c
        → (partner == user_id) ≡ false
        → (x : User) → db.find_first (λ x. x.id == partner) [] w.users ≡ some x
        → (t : Unit {0}) → check_listing db wanted w ≡ (ok t, w)
        → (create db now user_id (participant, product_id) w).1 ≡ w
    unfolding create
    show_served c serves other x found t passed =
        rw (other, found, passed, serves) (show_existing-world user_id c w)

    unmoved :
        (t : Unit {0}) (v : World)
        → check_listing db wanted w ≡ (ok t, v)
        → check_listing db wanted w ≡ (ok t, w)
    unmoved t v passed =
        let here : v ≡ w =
          sym (ap (λ (p : Result (Unit {0}) × World). p.1) passed) ∙ check_listing-world in
        passed ∙ ap (λ (q : World). (ok t, q)) here

    -- With a conversation that serves already, `create` writes nothing.
    found_existing :
        (c : Conversation)
        → find_existing db wanted user_id partner w ≡ some c
        → (create db now user_id (participant, product_id) w).1 ≡ w
    found_existing c serves = elim (Bool-cases (partner == user_id)) [
      | inl self ↦ refused self
      | inr other ↦ elim (Option-cases (db.find_first (λ x. x.id == partner) [] w.users)) [
        | inl missing ↦ partner_missing other missing
        | inr (x, found) ↦ elim (Result-cases (check_listing db wanted w)) [
          | inr (z, v, failed) ↦ listing_missing other x found z v failed
          | inl (t, v, passed) ↦ show_served c serves other x found t (unmoved t v passed)
        ]
      ]
    ]

    abbrev new_id : String
    new_id = db.cuid w.issued

    abbrev seats_after : List ConversationParticipant
    seats_after =
        (w.participants ++ new_seat db (db.cuid (w.issued + 1)) new_id user_id ∷ [])
        ++ new_seat db (db.cuid (w.issued + 1 + 1)) new_id partner ∷ []

    abbrev row : Conversation
    row = record { id = new_id; last_message_at = none; listing_id = wanted; created_at = now }

    seats_opened : opened.participants ≡ seats_after
    unfolding open_new
    seats_opened =
        rw (db.create_lem (new_seat db (db.cuid (w.issued + 1)) new_id user_id) w.participants)
          (db.create_lem _ _)

    row_serves :
        All (λ p. (p.conversation_id == new_id) ≡ false) w.participants
        → is_between db wanted user_id partner seats_after row ≡ true
    row_serves unused =
        let mine =
          any_of_mem (seat_of new_id user_id) seats_after
            (mem-append_left (w.participants ++ _ ∷ []) _ (mem-append_last w.participants _))
            (ground (arith, eq_refl new_id, eq_refl user_id)) in
        let theirs =
          any_of_mem (seat_of new_id partner) seats_after (mem-append_last _ _)
            (ground (arith, eq_refl new_id, eq_refl partner)) in
        let same = same_listing_refl wanted in let alone = nobody_else in ground arith
      where
        nobody_else :
            any
              (λ p.
                p.conversation_id == new_id && not (p.user_id == user_id || p.user_id == partner))
              seats_after
            ≡ false
        nobody_else =
            let old =
              any-none
                (λ p.
                  p.conversation_id == new_id && not (p.user_id == user_id || p.user_id == partner))
                w.participants (All-mono _ w.participants (λ p h. ground arith) unused) in
            rw (any-append _ (w.participants ++ _ ∷ []), any-append _ w.participants, old)
              (ground (arith, eq_refl user_id, eq_refl partner))

    -- The new conversation is one that serves.
    opened_serves :
        All (λ p. (p.conversation_id == new_id) ≡ false) w.participants
        → (c : Conversation) × (find_existing db wanted user_id partner opened ≡ some c)
    unfolding find_existing open_new
    opened_serves unused =
        let seated = seats_opened in
        let passes : is_between db wanted user_id partner opened.participants row ≡ true =
          rw seated (row_serves unused) in
        let there : Memᴰ row opened.conversations =
          rw (db.create_lem row w.conversations) (mem-append_last w.conversations row) in
        let (c, first, m, ok_row) =
          find_first_of_mem db _ [] opened.conversations row there passes in
        (c, first)

  -- Whatever the clock says, `create` leaves the tables, or finds no conversation that serves and
  -- opens one.
  create_cases :
      (user_id participant : String) (product_id : Option String) (w : World)
      → ((n : ℕ) → (create db n user_id (participant, product_id) w).1 ≡ w)
        ⊎ ((n : ℕ)
            → (create db n user_id (participant, product_id) w).1
              ≡ opened n user_id participant product_id w)
  create_cases user_id participant product_id w = elim (Bool-cases (trim participant == user_id)) [
    | inl self ↦ inl (λ n. refused n user_id participant product_id w self)
    | inr other ↦ elim (Option-cases (db.find_first (λ x. x.id == trim participant) [] w.users)) [
      | inl missing ↦ inl (λ n. partner_missing n user_id participant product_id w other missing)
      | inr (x, found) ↦ elim (Result-cases (check_listing db (listing_id_of product_id) w)) [
        | inr (z, v, failed) ↦
            inl (λ n. listing_missing n user_id participant product_id w other x found z v failed)
        | inl (t, v, passed) ↦
            elim (Option-cases
              (find_existing db (listing_id_of product_id) user_id (trim participant) w)) [
                | inl absent ↦ inr (λ n.
                    open_new_and_show n user_id participant product_id w absent other x found t
                      (unmoved n user_id participant product_id w t v passed))
                | inr (c, serves) ↦
                    inl (λ n. found_existing n user_id participant product_id w c serves)
              ]
      ]
    ]
  ]

  -- Where no seat has the identifier that the next row gets: opening a conversation and opening it
  -- again, at any time, leaves the tables as the first call did, however the two calls end.
  pub create_once :
      (now later : ℕ) (user_id participant : String) (product_id : Option String) (w : World)
      → All (λ p. (p.conversation_id == db.cuid w.issued) ≡ false) w.participants
      → (create db later user_id
          (participant, product_id)
          (create db now user_id (participant, product_id) w).1).1
        ≡ (create db now user_id (participant, product_id) w).1
  create_once now later user_id participant product_id w unused =
      elim (create_cases user_id participant product_id w) [
        | inl same ↦
            ap (λ v. (create db later user_id (participant, product_id) v).1) (same now)
            ∙ same later
            ∙ sym (same now)
        | inr moved ↦
            let next = opened now user_id participant product_id w in
            let (c, serves) = opened_serves now user_id participant product_id w unused in
            ap (λ v. (create db later user_id (participant, product_id) v).1) (moved now)
            ∙ found_existing later user_id participant product_id next c serves
            ∙ sym (moved now)
      ]
