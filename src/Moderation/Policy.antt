-- ===== src/Moderation/Policy.antt =====
-- src/modules/ai/moderation-policy.service.ts: the prompts, and `buildInputHash` of
-- src/modules/ai/ai-moderation.service.ts up to the digest, which is a parameter.
use Prim.Native.String.{◌++◌ as str_append}
use nestjs_learn.Prelude.{List, [], ◌∷◌, map, String}
use nestjs_learn.Text.Json.{escape, quote, quote_or_null, join}
use nestjs_learn.Moderation.Types.{ListingModerationInput}

abbrev pub categories : List String
categories =
    "hang_hoa_cam" ∷ "spam_lua_dao" ∷ "noi_dung_doc_hai" ∷ "dieu_huong_giao_dich_ngoai_nen_tang"
    ∷ []

unfoldable pub get_system_prompt : String
unfolding join
get_system_prompt = join " " (
    "Ban la he thong kiem duyet bai dang cho san giao dich sinh vien."
    ∷ "Nhiem vu cua ban la danh gia rui ro noi dung van ban cua bai dang."
    ∷ "Chi xem xet title, description, category, department."
    ∷ "Khong duoc tu tao them chinh sach ngoai cac rule da cho."
    ∷ "Neu thong tin khong du de ket luan vi pham, uu tien manual_review thay vi approve manh tay."
    ∷ "Chi de xuat approve khi bai dang sach, cu the, hop ly va khong co dau hieu vi pham." ∷ [])

unfoldable pub get_policy_prompt : String
unfolding join
get_policy_prompt = join "\n" (
    "Rule moderation v1:"
    ∷ "1. hang_hoa_cam: cam hang hoa, dich vu trai phep, vat pham bi cam, noi dung co dau hieu phi phap ro rang."
    ∷ "2. spam_lua_dao: cam noi dung spam, quang cao lap lai, thong tin danh lua, hinh thuc dat coc dang ngo, gia tri phi thuc te ro rang."
    ∷ "3. noi_dung_doc_hai: cam noi dung thuyet minh khiem nha, thu ghet, khieu dam, bao luc ro rang."
    ∷ "4. dieu_huong_giao_dich_ngoai_nen_tang: cam dau hieu manh ve viec ep nguoi dung lien he/giao dich ben ngoai de tranh he thong."
    ∷ "Tra ve violations theo dung key cua rule neu vi pham."
    ∷ "riskLevel low chi khi khong co vi pham."
    ∷ "riskLevel medium/high khi co vi pham hoac nghi ngo can nguoi that xem."
    ∷ "recommendedAction chi duoc la approve hoac manual_review." ∷ [])

-- A property of an object that `JSON.stringify` writes on a line of its own.
abbrev pub property : String → String → String
property key value = str_append "  " (str_append (quote key) (str_append ": " value))

-- An array of texts, two levels deep.
abbrev pub array_of : List String → String
array_of items =
    str_append "[\n"
      (str_append (join ",\n" (map (λ s. str_append "    " (quote s)) items)) "\n  ]")

-- `JSON.stringify(…, null, 2)`.
unfoldable pub build_user_prompt : ListingModerationInput → String
unfolding escape join
build_user_prompt input =
    let properties : List String =
      property "listingId" (quote input.id)
      ∷ property "title" (quote input.title)
      ∷ property "description" (quote input.description)
      ∷ property "category" (quote input.category)
      ∷ property "department" (quote_or_null input.department)
      ∷ property "allowedViolationKeys" (array_of categories)
      ∷ [] in
    str_append "{\n" (str_append (join ",\n" properties) "\n}")

-- `"key":value`.
abbrev pub tight_property : String → String → String
tight_property key value = str_append (quote key) (str_append ":" value)

-- `digest` is the hexadecimal SHA-256 of a text.
unfoldable pub build_input_hash : (String → String) → ListingModerationInput → String
unfolding escape join
build_input_hash digest input =
    let properties : List String =
      tight_property "title" (quote input.title)
      ∷ tight_property "description" (quote input.description)
      ∷ tight_property "category" (quote input.category)
      ∷ tight_property "department" (quote_or_null input.department)
      ∷ [] in
    digest (str_append "{" (str_append (join "," properties) "}"))
