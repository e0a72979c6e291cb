-- ===== src/Schema/Enums.antt =====
-- prisma/schema.prisma: the enumerations, with the tests that the services make on them.
use nestjs_learn.Prelude.{Bool, true, false}

pub data UserRole : Type 0 where
  user admin : UserRole

pub data Department : Type 0 where
  cntt kinhtoe marketing ngoaingu luat quanly kythuat : Department

pub data Condition : Type 0 where
  new like_new good fair : Condition

pub data ListingStatus : Type 0 where
  selling reserved sold : ListingStatus

pub data ApprovalStatus : Type 0 where
  pending approved rejected : ApprovalStatus

pub data OtpType : Type 0 where
  register reset_password : OtpType

pub data MessageType : Type 0 where
  text image : MessageType

pub data ReportStatus : Type 0 where
  pending reviewed resolved : ReportStatus

pub data NotificationType : Type 0 where
  new_message listing_approved listing_rejected new_review : NotificationType

pub data ModerationRiskLevel : Type 0 where
  low medium high error : ModerationRiskLevel

pub data ModerationRecommendedAction : Type 0 where
  approve manual_review : ModerationRecommendedAction

pub data ModerationAppliedAction : Type 0 where
  approved pending : ModerationAppliedAction

pub data ModerationRunStatus : Type 0 where
  success error : ModerationRunStatus

pub data ModerationFailureType : Type 0 where
  timeout provider parse unknown : ModerationFailureType

pub data ModerationJobStatus : Type 0 where
  pending running completed failed : ModerationJobStatus

abbrev pub is_pending : ModerationJobStatus → Bool
is_pending ModerationJobStatus.pending = true
is_pending _ = false

abbrev pub is_running : ModerationJobStatus → Bool
is_running ModerationJobStatus.running = true
is_running _ = false

abbrev pub is_approved : ApprovalStatus → Bool
is_approved ApprovalStatus.approved = true
is_approved _ = false

abbrev pub is_rejected : ApprovalStatus → Bool
is_rejected ApprovalStatus.rejected = true
is_rejected _ = false

-- `===` of two members of an enumeration.
abbrev pub same_approval : ApprovalStatus → ApprovalStatus → Bool
same_approval ApprovalStatus.pending b = elim b [ ApprovalStatus.pending ↦ true | _ ↦ false ]
same_approval ApprovalStatus.approved b = elim b [ ApprovalStatus.approved ↦ true | _ ↦ false ]
same_approval ApprovalStatus.rejected b = elim b [ ApprovalStatus.rejected ↦ true | _ ↦ false ]

abbrev pub same_status : ListingStatus → ListingStatus → Bool
same_status selling b = elim b [ selling ↦ true | _ ↦ false ]
same_status reserved b = elim b [ reserved ↦ true | _ ↦ false ]
same_status sold b = elim b [ sold ↦ true | _ ↦ false ]

abbrev pub same_condition : Condition → Condition → Bool
same_condition new b = elim b [ new ↦ true | _ ↦ false ]
same_condition like_new b = elim b [ like_new ↦ true | _ ↦ false ]
same_condition good b = elim b [ good ↦ true | _ ↦ false ]
same_condition fair b = elim b [ fair ↦ true | _ ↦ false ]

abbrev pub same_department : Department → Department → Bool
same_department cntt b = elim b [ cntt ↦ true | _ ↦ false ]
same_department kinhtoe b = elim b [ kinhtoe ↦ true | _ ↦ false ]
same_department marketing b = elim b [ marketing ↦ true | _ ↦ false ]
same_department ngoaingu b = elim b [ ngoaingu ↦ true | _ ↦ false ]
same_department luat b = elim b [ luat ↦ true | _ ↦ false ]
same_department quanly b = elim b [ quanly ↦ true | _ ↦ false ]
same_department kythuat b = elim b [ kythuat ↦ true | _ ↦ false ]
