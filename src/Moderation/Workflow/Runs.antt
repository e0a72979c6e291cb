-- ===== src/Moderation/Workflow/Runs.antt =====
-- What a run of the moderation does: when it approves, that it always records one run, and what it
-- leaves alone.
use nestjs_learn.Prelude.{
  ℕ, ◌≤◌, ◌≡◌, ◌≢◌, refl, ◌⊎◌, inl, inr, true, Option, none, some, [], String, arith, Option-cases,
  Bool-cases, ◌==◌,
}
use nestjs_learn.Prisma.{Prisma}
use nestjs_learn.Schema.{
  Category, Listing, ListingModerationRun, ModerationRiskLevel, ModerationRecommendedAction,
  is_approved,
}
use nestjs_learn.Listings.Mapper.{map_option}
use nestjs_learn.World.{World, Result, ok, err, Exception, bad_request, not_found, database}
use nestjs_learn.Moderation.Types.{ListingModerationInput, ModerationWorkflowResult}
use nestjs_learn.Moderation.Evaluation.{
  Evaluation, evaluated, rejected, ModerationEvaluationResult, ModerationEvaluationError,
}
use nestjs_learn.Moderation.Workflow.{
  Config, by_id, lower_department, moderation_input, should_auto_approve, approve_listing,
  load_moderation_input, apply_result, record_failure, conclude, run_for_listing,
}

-- What the model has to find for a listing to be approved with no human in between.
pub record MayApprove (min : Option ℕ) (r : ModerationEvaluationResult) : Type 0 where
  pub low_risk : r.risk_level ≡ ModerationRiskLevel.low
  pub clean : r.violations ≡ []
  pub recommended : r.recommended_action ≡ ModerationRecommendedAction.approve
  pub threshold : ℕ
  pub configured : min ≡ some threshold
  pub confident : threshold ≤ r.confidence

-- The input is made of the listing and its category.
pub record IsInputOf (l : Listing) (c : Category) (input : ListingModerationInput) : Type 0 where
  pub same_id : input.id ≡ l.id
  pub same_title : input.title ≡ l.title
  pub same_description : input.description ≡ l.description
  pub same_category : input.category ≡ c.slug
  pub same_department : input.department ≡ map_option lower_department l.department

moderation_input-IsInputOf : (l : Listing) (c : Category) → IsInputOf l c (moderation_input l c)
moderation_input-IsInputOf l c = record {
  same_id = refl;
  same_title = refl;
  same_description = refl;
  same_category = refl;
  same_department = elim (Option-cases l.department) [
    | inl missing ↦ rw missing refl
    | inr (d, given) ↦ rw given refl
  ];
}

should_auto_approve_sound :
    (min : Option ℕ) (r : ModerationEvaluationResult)
    → should_auto_approve min r ≡ true
    → MayApprove min r
unfolding should_auto_approve
should_auto_approve_sound none r h = absurd (ground arith)
should_auto_approve_sound (some m) r h = record {
  low_risk = ground arith;
  clean = ground arith;
  recommended = ground arith;
  threshold = m;
  configured = refl;
  confident = ground arith;
}

module _ (db : Prisma) (config : Config) (hash : ListingModerationInput → String) (now : ℕ)
    (listing_id : String) where
  failure-keeps :
      (input : ListingModerationInput) (e : ModerationEvaluationError) (w : World)
      → ((record_failure db config hash now listing_id input e w).1.jobs ≡ w.jobs)
        × ((record_failure db config hash now listing_id input e w).1.listings ≡ w.listings)
  unfolding record_failure
  failure-keeps input e w = (refl, refl)

  approve-jobs : (w : World) → (approve_listing db now listing_id w).1.jobs ≡ w.jobs
  unfolding approve_listing
  approve-jobs w = ground arith

  result-jobs :
      (r : ModerationEvaluationResult) (w : World)
      → (apply_result db config hash now listing_id r w).1.jobs ≡ w.jobs
  unfolding apply_result
  result-jobs r w = ground arith

  conclude-jobs :
      (input : ListingModerationInput) (e : Evaluation) (w : World)
      → (conclude db config hash now listing_id input e w).1.jobs ≡ w.jobs
  unfolding conclude
  conclude-jobs input (rejected e) w = refl
  conclude-jobs input (evaluated r) w = ground arith

  load-keeps : (w : World) → (load_moderation_input db listing_id w).1 ≡ w
  unfolding load_moderation_input
  load-keeps w = ground arith

  conclude-approves :
      (input : ListingModerationInput) (e : Evaluation) (w : World)
      → ((conclude db config hash now listing_id input e w).1.listings ≡ w.listings)
        ⊎ ((r : ModerationEvaluationResult) × (e ≡ evaluated r)
            × (should_auto_approve config.auto_approve_confidence_min r ≡ true))
  unfolding conclude
  conclude-approves input (rejected e) w = inl refl
  conclude-approves input (evaluated r) w =
      elim (Bool-cases (should_auto_approve config.auto_approve_confidence_min r)) [
        | inl approves ↦ inr (r, refl, approves)
        | inr waits ↦ inl (ground arith)
      ]

  module _ (evaluate : ListingModerationInput → Evaluation) (w : World) where
    abbrev run : Result ModerationWorkflowResult × World
    run = run_for_listing db config hash now listing_id evaluate w

    abbrev concluded : ListingModerationInput → Result ModerationWorkflowResult × World
    concluded input = conclude db config hash now listing_id input (evaluate input) w

    -- A run that reaches the model has found the listing and its category.
    data Reached : Type 0 where
      refused : (e : Exception) → run ≡ (err e, w) → Reached
      reached :
          (l : Listing) (c : Category)
          → db.find_first (by_id listing_id) [] w.listings ≡ some l
          → db.find_first (λ c. c.id == l.category_id) [] w.categories ≡ some c
          → run ≡ concluded (moderation_input l c)
          → Reached

    run-Reached : Reached
    unfolding run_for_listing
    run-Reached = elim (Bool-cases config.enabled) [
      | inr off ↦ refused (bad_request "AI moderation is disabled") (rw off)
      | inl on ↦ elim (Option-cases (db.find_first (by_id listing_id) [] w.listings)) [
        | inl missing ↦ refused (not_found "Listing not found") (rw (on, missing))
        | inr (l, found) ↦
            elim (Option-cases (db.find_first (λ c. c.id == l.category_id) [] w.categories)) [
              | inl gone ↦ refused (database "category") (rw (on, found, gone))
              | inr (c, there) ↦ reached l c found there (rw (on, found, there) refl)
            ]
      ]
    ]

    -- A run of the moderation does not touch the queue of jobs.
    pub run_for_listing-jobs : run.1.jobs ≡ w.jobs
    run_for_listing-jobs = elim run-Reached [
      | refused e h ↦ rw h
      | reached l c found there h ↦
          let input = moderation_input l c in rw h (conclude-jobs input (evaluate input) w)
    ]

    -- Whatever the model answers, a run of the moderation changes a listing only if the listing of
    -- the run and its category are there, and the evaluation of the input that is made of these two
    -- succeeded with a low risk, no violation, the recommendation to approve, and a confidence that
    -- reaches the configured minimum; a minimum that is not a number approves none.
    pub run_for_listing-approves :
        (run_for_listing db config hash now listing_id evaluate w).1.listings ≢ w.listings
        → (l : Listing) × (c : Category) × (db.find_first (by_id listing_id) [] w.listings ≡ some l)
          × (db.find_first (λ c. c.id == l.category_id) [] w.categories ≡ some c)
          × (input : ListingModerationInput) × IsInputOf l c input
          × (r : ModerationEvaluationResult) × (evaluate input ≡ evaluated r)
          × MayApprove config.auto_approve_confidence_min r
    run_for_listing-approves changed = elim run-Reached [
      | refused e h ↦ absurd (changed (rw h))
      | reached l c found there h ↦
          let input = moderation_input l c in
          elim (conclude-approves input (evaluate input) w) [
            | inl same ↦ absurd (changed (rw h same))
            | inr (r, e, approves) ↦ (
              l,
              c,
              found,
              there,
              input,
              moderation_input-IsInputOf l c,
              r,
              e,
              should_auto_approve_sound _ r approves,
            )
          ]
    ]

  conclude-records :
      (input : ListingModerationInput) (e : Evaluation) (w : World) (l : Listing)
      → db.find_first (by_id listing_id) [] w.listings ≡ some l
      → (result : ModerationWorkflowResult) × (row : ListingModerationRun) × ((conclude db config
            hash now listing_id input e w).0
          ≡ ok result)
        × ((conclude db config hash now listing_id input e w).1.runs ≡ db.create row w.runs)
        × (row.listing_id ≡ listing_id)
  unfolding conclude
  conclude-records input (rejected e) w l found = (_, _, refl, refl, refl)
  conclude-records input (evaluated r) w l found =
      elim (Bool-cases (should_auto_approve config.auto_approve_confidence_min r)) [
        | inl approves ↦ elim (Bool-cases (is_approved l.approval_status)) [
          | inl already ↦ rw (approves, found, already) (_, _, refl, refl, refl)
          | inr waiting ↦ rw (approves, found, waiting) (_, _, refl, refl, refl)
        ]
        | inr waits ↦ rw waits (_, _, refl, refl, refl)
      ]

  -- With the moderation enabled, a run for a listing that is there never throws, whatever the model
  -- answers: it returns a result, and it records exactly one run of that listing.
  pub run_for_listing_total :
      (evaluate : ListingModerationInput → Evaluation) (w : World) (l : Listing) (c : Category)
      → config.enabled ≡ true
      → db.find_first (by_id listing_id) [] w.listings ≡ some l
      → db.find_first (λ c. c.id == l.category_id) [] w.categories ≡ some c
      → let run = run_for_listing db config hash now listing_id evaluate w in
        (result : ModerationWorkflowResult) × (row : ListingModerationRun) × (run.0 ≡ ok result)
        × (run.1.runs ≡ db.create row w.runs)
        × (row.listing_id ≡ listing_id)
  unfolding run_for_listing
  run_for_listing_total evaluate w l c on found there =
      let input = moderation_input l c in
      rw (on, found, there) (conclude-records input (evaluate input) w l found)
