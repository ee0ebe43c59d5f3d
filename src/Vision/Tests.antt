-- ===== src/Vision/Tests.antt =====
-- Runs of the vision handoff.
use umans_dash_go.Prelude.{
  ◌≡◌, refl, ◌≤◌, ◌-◌, min, inl, true, none, some, [], ◌∷◌, pos, codes, same, length,
}
use umans_dash_go.Json.{Json, Fields, str, arr, obj, nil, cons, end, field, member}
use umans_dash_go.HandoffCache.{HandoffCache, new_image_handoff_cache, get, find}
use umans_dash_go.Schema.{after_prefix}
use umans_dash_go.Images.{collect_image_parts}
use umans_dash_go.Vision.{
  answered, described, outcome_of, description_of, read_stream, chunk_text, choice_text,
  extract_content,
}
use umans_dash_go.Vision.Handoff.{
  Calls, Handoff, ask, image_limit, analyze_image_via_handoff, perform_vision_handoff,
}
use umans_dash_go.Vision.Described.{analyze_image_via_handoff_again}
use umans_dash_go.Vision.Replaced.{IsHandedOff, perform_vision_handoff-images}

-- Every stream says "cat".
abbrev says_cat : Calls
says_cat = record {
  sha256 = λ s. s;
  marshal = λ v. inl [];
  chat = λ body key. answered 200 [] (codes "data: cat" ∷ codes "data: [DONE]" ∷ []) none;
  itoa = λ n. n ∷ [];
  decode = λ line. some (
      field (codes "choices")
        (arr (
          cons (obj (field (codes "delta") (obj (field (codes "content") (str line) end)) end))
            nil))
        end);
  trim = λ s. s;
  default_prompt = [];
}

abbrev config : Handoff
config = record { prompt = []; model = []; cache_enabled = true; max_images = pos 2 }

abbrev empty_cache : HandoffCache
empty_cache = new_image_handoff_cache (pos 50) (pos 1000)

said : ask says_cat config (codes "k") (codes "a") ≡ described (codes "cat")
unfolding ask outcome_of description_of read_stream chunk_text choice_text extract_content member
    after_prefix same
said = refl

not_held : (get 5 (codes "a") empty_cache).1 ≡ none
unfolding get find
not_held = refl

analyze_image_via_handoff_again_example :
    ((analyze_image_via_handoff says_cat config (codes "k") 5 6 (codes "a") (some empty_cache)).1
      ≡ codes "cat")
    × ((analyze_image_via_handoff says_cat config
          (codes "k")
          7
          8
          (codes "a")
          (analyze_image_via_handoff says_cat config
            (codes "k")
            5
            6
            (codes "a")
            (some empty_cache)).0).1
        ≡ codes "cat")
analyze_image_via_handoff_again_example =
    analyze_image_via_handoff_again says_cat says_cat config (codes "k") (codes "a") (codes "cat") 5
      6 7 8 empty_cache refl refl refl refl not_held said

abbrev image : Json
image = obj (
    field (codes "type") (str (codes "image_url"))
      (field (codes "image_url") (obj (field (codes "url") (str (codes "a")) end)) end))

abbrev request : Fields
request =
    field (codes "messages")
      (arr (cons (obj (field (codes "content") (arr (cons image nil)) end)) nil)) end

perform_vision_handoff-images_example :
    (length (
        collect_image_parts
          (perform_vision_handoff says_cat config (codes "k") (λ n. (n, n)) true request none).0)
      ≤ length (collect_image_parts request) - image_limit config)
    × (length (collect_image_parts request) ≤ image_limit config
        → collect_image_parts
            (perform_vision_handoff says_cat config (codes "k") (λ n. (n, n)) true request none).0
          ≡ [])
    × ((perform_vision_handoff says_cat config (codes "k") (λ n. (n, n)) true request none).2
        ≡ min (image_limit config) (length (collect_image_parts request)))
    × IsHandedOff says_cat config
        (codes "k")
        (λ n. (n, n))
        request
        none
        (perform_vision_handoff says_cat config (codes "k") (λ n. (n, n)) true request none)
perform_vision_handoff-images_example =
    perform_vision_handoff-images says_cat config (codes "k") (λ n. (n, n)) request none
