-- ===== src/Approval/Format.antt =====
-- backend/app/domain/approval/wechat_format.py: the text of a card that is sent to its reviewers.
use colony_agents.Prelude.{
  String, Text, codes, Bool, ◌||◌, ◌==◌, Option, none, some, List, [], ◌∷◌, ◌++◌, is_nil, join,
  strip, if◌then◌else◌,
}

-- base.rstrip("/")
abbrev all_slash : Text → Bool
all_slash [] = Bool.true
all_slash (c ∷ s) = if c == b'/' then all_slash s else Bool.false

abbrev rstrip_slash : Text → Text
rstrip_slash [] = []
rstrip_slash (c ∷ s) = let rest = rstrip_slash s in if all_slash (c ∷ s) then [] else c ∷ rest

-- if session_id: url += f"?session={session_id}"
abbrev session_part : Option Text → Text
session_part none = []
session_part (some []) = []
session_part (some (c ∷ s)) = codes "?session=" ++ (c ∷ s)

unfoldable pub build_mission_deep_link : Text → Text → Option Text → Text
build_mission_deep_link frontend_base slug session_id =
    let base = rstrip_slash (strip frontend_base) in
    if is_nil base || is_nil slug
    then []
    else base ++ (codes "/mission/" ++ (slug ++ session_part session_id))

unfoldable pub build_approval_message : String → Text → Text → List Text → Text → Text
build_approval_message request_id title message options mission_url =
    let options_str = if is_nil options then codes "（无候选）" else join (codes " / ") options in
    let last =
      if is_nil mission_url
      then codes "也可在 observe 页面点击决定。"
      else codes "或点此进平台审核/提意见：" ++ mission_url in
    join (codes "\n") (
      (codes "📋 待审批 [" ++ (codes request_id ++ codes "]"))
      ∷ (codes "标题：" ++ title)
      ∷ []
      ∷ message
      ∷ []
      ∷ (codes "选项：" ++ options_str)
      ∷ []
      ∷ (codes "在微信回复格式：" ++ (codes request_id ++ codes " <选项>"))
      ∷ last
      ∷ [])
