-- ===== src/Users/Accounts/Blocks.antt =====
-- What a block does to the messages of the blocked user.
use nestjs_learn.Prelude.{
  ℕ, ◌≡◌, refl, sym, subst, true, false, ◌&&◌, [], ◌∷◌, ◌++◌, Memᴰ, String, arith, Option-cases,
  Bool-cases, inl, inr, any, All-at, mem-append_last, ◌==◌, eq_iff,
}
use nestjs_learn.Prisma.{Prisma}
use nestjs_learn.Schema.{UserBlock}
use nestjs_learn.Text.{Unicode}
use nestjs_learn.World.{World, ok}
use nestjs_learn.Users.Accounts.{is_active_user, is_block, upsert_block, block_user}
use nestjs_learn.Conversations.{
  SendMessageDto, SendMessageResult, participant_of, recipients, send_message_internal,
}
use nestjs_learn.Conversations.Delivery.{send_message_delivers}

module _ (db : Prisma) (now : ℕ) (blocker blocked : String) (w w' : World) where
  -- A call of `blockUser` that returns leaves a row of the block.
  block_row :
      block_user db now blocker blocked w ≡ (ok true, w')
      → (b : UserBlock) × Memᴰ b w'.blocks × (b.blocker_id ≡ blocker) × (b.blocked_id ≡ blocked)
  unfolding block_user upsert_block
  block_row e = elim (Bool-cases (blocker == blocked)) [
    | inl self ↦ absurd (ground arith)
    | inr other ↦ elim (Option-cases (db.find_first (is_active_user blocked) [] w.users)) [
      | inl missing ↦ absurd (ground arith)
      | inr (x, found) ↦
          elim (Option-cases (db.find_first (is_block blocker blocked) [] w.blocks)) [
            | inl absent ↦
                let row : UserBlock = record {
                  id = db.cuid w.issued;
                  blocker_id = blocker;
                  blocked_id = blocked;
                  created_at = now;
                } in
                let after : w'.blocks ≡ w.blocks ++ row ∷ [] =
                  ground (arith, db.create_lem row w.blocks) in
                (row, subst (Memᴰ row) (sym after) (mem-append_last w.blocks row), refl, refl)
            | inr (b, there) ↦
                let (m, passed) =
                  db.find_first_sound (is_block blocker blocked) [] w.blocks b there in
                let same : w.blocks ≡ w'.blocks = ground arith in
                (
                  b,
                  subst (Memᴰ b) same m,
                  ground (arith, eq_iff b.blocker_id blocker),
                  ground (arith, eq_iff b.blocked_id blocked),
                )
          ]
    ]
  ]

  -- After a call of `blockUser` that returns, no message that the blocked user sends to a
  -- conversation with the blocker among the recipients is accepted, whatever it holds.
  pub block_stops_messages :
      (u : Unicode) (later : ℕ) (id : String) (payload : SendMessageDto) (r : SendMessageResult)
      (v : World)
      → block_user db now blocker blocked w ≡ (ok true, w')
      → any
          (λ x. blocker == x)
          (recipients db u later blocked (db.find_many (participant_of id) [] w'.participants))
        ≡ true
      → ¬ (send_message_internal db u later id blocked payload w' ≡ (ok r, v))
  block_stops_messages u later id payload r v e among sent =
      let (b, m, from, to) = block_row e in
      let others =
        recipients db u later blocked (db.find_many (participant_of id) [] w'.participants) in
      let (sent_row, free) = send_message_delivers db u later id blocked payload w' v r sent in
      let clear : (any (λ x. b.blocker_id == x) others && b.blocked_id == blocked) ≡ false =
        All-at _ w'.blocks free m in
      let named : any (λ x. b.blocker_id == x) others ≡ true =
        subst (λ (s : String). any (λ x. s == x) others ≡ true) (sym from) among in
      absurd (ground (arith, eq_iff b.blocked_id blocked))
