-- ===== src/Jira/IssueKeyParser/Tests.antt =====
-- The parser of issue keys at concrete texts.
use github_for_jira.Base.{◌≡◌, refl, ◌↔◌, List, [], ◌∷◌, map, Any, Text, codes, true}
use github_for_jira.Jira.IssueKeyParser.{to_upper, issue_key_parser}
use github_for_jira.Jira.IssueKeyParser.Occurrences.{Occurs, issue_key_parser_iff}

abbrev all_of : List Text → List Text
all_of ks = ks

abbrev message : Text
message = codes "JRA-1: fix [jra-23]#K9-40 and 22-3, JRA-04, xJRA-5a J-1 AB-1-CD-2"

message_keys :
    issue_key_parser all_of message
    ≡ codes "JRA-1" ∷ codes "JRA-23" ∷ codes "K9-40" ∷ codes "AB-1" ∷ codes "CD-2" ∷ []
unfolding issue_key_parser
message_keys = refl

issue_key_parser_iff_example :
    Any (λ v. v ≡ codes "JRA-23") (issue_key_parser all_of message)
    ↔ ((key : Text) × Occurs true key message × (map to_upper key ≡ codes "JRA-23"))
issue_key_parser_iff_example =
    issue_key_parser_iff all_of (λ ks u. ((λ m. m), (λ m. m))) message (codes "JRA-23")
