-- ===== src/Tests/Writes.antt =====
-- A site with a working branch, two writes from one tip, and a publish.
use kotoji.Prelude.{
  if◌then◌else◌, ok, ◌≡◌, refl, ◌≢◌, true, false, ◌||◌, Option, none, some, [], ◌∷◌, arith,
}
use kotoji.Action.{◌>>=◌}
use kotoji.Label.{label_re}
use kotoji.Repo.{
  Site, CommitInfo, Actor, checkout_branch, enforce_quota, check_base_sha, Env, commit_staged,
}
use kotoji.Repo.Advance.{publish_sound, publish_forward}
use kotoji.Repo.Branches.{create_branch}
use kotoji.Repo.Isolation.{publishing, write-isolated, no_lost_update, run_all}
use kotoji.Repo.Laws.{IsRef, names_object}
use kotoji.Repo.Merging.{published-IsRef}
use kotoji.Repo.Publishing.{publish, PublishInput}
use kotoji.Repo.Republish.{publish_repeated}
use kotoji.Repo.Taking.{Ahead, Took}
use kotoji.Repo.Writes.{saves, commit_on, Write, writes, apply_write}
use kotoji.Resolve.{published, validate_branch}
use kotoji.Resolve.Grammar.{IsBranch, validate_branch_iff}
use kotoji.Site.Handle.{validate_branch_name}
use kotoji.Site.Paths.{join, ext_allowed_for_upload, validate_path}
use kotoji.Tests.{plain, draft}
use kotoji.Tests.Repos.{small_git-IsGit, small_git}
use kotoji.Text.{
  has_prefix, mem, has_suffix, Bytes, bytes_eq, index_byte, to_lower, contains, codes,
}

abbrev pub ann : Actor
ann = record { name = codes "ann"; via_mcp = false }

abbrev pub first_sha : Bytes
first_sha = 1 ∷ []

abbrev second : Bytes
second = 0 ∷ 1 ∷ []

abbrev started : Bytes → Option Bytes
started b = if bytes_eq b draft || bytes_eq b published then some first_sha else none

abbrev pub small_site : Site small_git
small_site = record {
  repo = record { refs = started; at_head = some draft; at_worktree = none };
  found = true;
  deleted = false;
  published_commit_sha = some first_sha;
}

abbrev pub fine_answers : Env
fine_answers = record { load_error = none; set_published_error = none }

abbrev edit : Write
edit = writes 0 (record {
  branch = draft;
  path = codes "index.html";
  content = codes "hi";
  base_sha = first_sha;
  message = [];
  actor = ann;
})

abbrev rival : Write
rival = saves draft first_sha [] ann

abbrev pub info_of : Bytes → CommitInfo
info_of sha = record { sha = sha }

draft_routed : validate_branch plain draft ≡ none
unfolding validate_branch bytes_eq to_lower contains label_re
draft_routed = refl

pub draft-IsBranch : IsBranch draft
draft-IsBranch = (validate_branch_iff plain draft).0 draft_routed

pub draft-IsRef : IsRef draft
unfolding names_object
draft-IsRef = (draft-IsBranch, refl)

draft-ne-published : draft ≢ published
draft-ne-published e = ground arith

edit_done : (apply_write small_git plain fine_answers edit small_site).0 ≡ ok (info_of second)
unfolding apply_write commit_on ◌>>=◌ bytes_eq validate_path index_byte has_prefix mem join
    ext_allowed_for_upload to_lower check_base_sha checkout_branch enforce_quota commit_staged
edit_done = refl

abbrev to_publish : PublishInput
to_publish = record { from = []; base_sha = second; message = []; actor = ann }

abbrev after : Site small_git
after = (apply_write small_git plain fine_answers edit small_site).1

publish_done : (publish small_git fine_answers to_publish after).0 ≡ ok (info_of second)
unfolding publish ◌>>=◌ bytes_eq commit_on validate_path index_byte has_prefix mem join
    ext_allowed_for_upload to_lower check_base_sha checkout_branch enforce_quota commit_staged
    has_suffix apply_write
publish_done = refl

-- The site after a publish that could not store the pointer.
abbrev stale : Site small_git
stale =
    (publish small_git (record fine_answers { set_published_error = some "timeout" }) to_publish
      after).1

stale_published : stale.repo.refs published ≡ some second
unfolding publish ◌>>=◌ bytes_eq apply_write commit_on validate_path index_byte has_prefix mem join
    ext_allowed_for_upload to_lower check_base_sha checkout_branch enforce_quota commit_staged
    has_suffix
stale_published = refl

stale_row : stale.published_commit_sha ≡ some first_sha
unfolding publish ◌>>=◌ bytes_eq apply_write commit_on validate_path index_byte has_prefix mem join
    ext_allowed_for_upload to_lower check_base_sha checkout_branch enforce_quota commit_staged
    has_suffix
stale_row = refl

after_published : after.repo.refs published ≡ some first_sha
unfolding apply_write commit_on ◌>>=◌ bytes_eq validate_path index_byte has_prefix mem join
    ext_allowed_for_upload to_lower check_base_sha checkout_branch enforce_quota commit_staged
after_published = refl

pub published-ne-draft : published ≢ draft
published-ne-draft e = ground arith

abbrev published_tip : Site small_git → Option Bytes
published_tip w = w.repo.refs published

abbrev published_after : Site small_git
published_after = (publish small_git fine_answers to_publish after).1

no_lost_update_example :
    (apply_write small_git plain fine_answers rival
      (run_all small_git plain (publishing fine_answers to_publish ∷ []) after)).0
    ≢ ok (info_of second)
no_lost_update_example =
    no_lost_update small_git small_git-IsGit draft draft-IsRef plain fine_answers fine_answers edit
      rival (info_of second) (info_of second) (publishing fine_answers to_publish ∷ []) small_site
      (tt, tt) draft-ne-published refl refl refl edit_done

write-isolated_example : published_tip after ≡ published_tip small_site
write-isolated_example =
    write-isolated small_git small_git-IsGit published published-IsRef plain fine_answers edit
      small_site draft-IsRef published-ne-draft

publish_sound_example :
    (after.repo.refs draft ≡ some second)
    × Took small_git small_git-IsGit published-IsRef second (published_tip after) published_after
publish_sound_example =
    publish_sound small_git small_git-IsGit published-IsRef fine_answers to_publish (info_of second)
      after publish_done

publish_forward_example :
    Ahead small_git small_git-IsGit published-IsRef (some first_sha) published_after
publish_forward_example =
    publish_forward small_git small_git-IsGit published-IsRef fine_answers to_publish first_sha
      after after_published

publish_repeated_example :
    (publish small_git fine_answers to_publish stale).1.published_commit_sha
    ≡ stale.published_commit_sha
publish_repeated_example =
    publish_repeated small_git small_git-IsGit published-IsRef fine_answers to_publish stale
      stale_published

abbrev topic : Bytes
topic = codes "topic"

topic_made :
    (create_branch small_git plain fine_answers topic [] small_site).0 ≡ ok (info_of first_sha)
unfolding create_branch ◌>>=◌ validate_branch_name bytes_eq to_lower contains label_re
topic_made = refl

draft-ne-topic : draft ≢ topic
draft-ne-topic e = ground arith
