-- ===== src/Tests/Worlds.antt =====
-- Data that the tests share.
use nestjs_learn.Prelude.{Bool, true, false, none, some, [], String}
use nestjs_learn.Schema.{
  User, Listing, Category, Notification, NotificationType, UserRole, Department, Condition,
  ListingStatus, ApprovalStatus,
}
use nestjs_learn.World.{World}

abbrev pub empty_world : World
empty_world = record {
  users = [];
  otps = [];
  categories = [];
  listings = [];
  images = [];
  conversations = [];
  participants = [];
  messages = [];
  favorites = [];
  blocks = [];
  reports = [];
  notifications = [];
  runs = [];
  jobs = [];
  issued = 0;
  effects = [];
}

abbrev pub books : Category
books = record { id = "c1"; name = "Books"; slug = "books"; icon = none }

abbrev pub novel : Listing
novel = record {
  id = "l1";
  title = "Novel";
  description = "A novel in good shape.";
  price = 50;
  original_price = none;
  condition = Condition.good;
  status = ListingStatus.selling;
  approval_status = ApprovalStatus.pending;
  department = some Department.luat;
  slug = "novel";
  view_count = 0;
  seller_id = "ann";
  category_id = "c1";
  created_at = 10;
  updated_at = 10;
}

abbrev pub note : String → String → Bool → Notification
note id user is_read = record {
  id = id;
  user_id = user;
  type = NotificationType.new_message;
  title = "Tin nhan moi";
  body = "hello";
  is_read = is_read;
  metadata = none;
  created_at = 10;
}

abbrev pub person : String → String → Bool → User
person id email verified = record {
  id = id;
  email = email;
  student_id = id;
  password_hash = "hash";
  name = "Ann";
  avatar_url = none;
  avatar_public_id = none;
  department = none;
  seller_rating = 0;
  total_reviews = 0;
  is_verified = verified;
  is_active = true;
  role = UserRole.user;
  last_seen = none;
  is_online = false;
  created_at = 5;
  updated_at = 5;
}
