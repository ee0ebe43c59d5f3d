-- ===== src/Pipeline/Tests.antt =====
-- Runs of the two pipelines.
use umans_dash_go.Prelude.{
  ◌≤◌, ◌≡◌, refl, true, false, none, some, [], ◌∷◌, pos, codes, length, arith, inl,
}
use umans_dash_go.Json.{Json, str, obj, arr, nil, cons, Fields, end, field, member}
use umans_dash_go.Images.{walk_payload, typed_image}
use umans_dash_go.Images.Sorted.{sort_by_time, sort_by_time-Sorts}
use umans_dash_go.Catalog.{Catalog, needs_vision_handoff, find_model}
use umans_dash_go.Vision.{answered}
use umans_dash_go.Vision.Handoff.{Calls}
use umans_dash_go.Pipeline.{Setting, model_key, resolved_of, prepare_openai, prepare_anthropic}
use umans_dash_go.Pipeline.Prepared.{prepare_model, prepare_images}

abbrev empty_catalog : Catalog
empty_catalog = record {
  base_url = [];
  api_key = [];
  enabled_models = codes "umans-coder" ∷ [];
  disabled_models = [];
  vision_handoff_enabled = true;
  models = [];
  catalog_cache = none;
  upstream_models_cache = none;
  user_info_cache = none;
}

abbrev silent : Calls
silent = record {
  sha256 = λ s. s;
  marshal = λ v. inl [];
  chat = λ body key. answered 200 [] [] none;
  itoa = λ n. n ∷ [];
  decode = λ line. none;
  trim = λ s. s;
  default_prompt = [];
}

abbrev one_image : Setting
one_image = record {
  catalog = empty_catalog;
  to_lower = λ s. s;
  sort_slice = λ less ids. ids;
  sort_parts = sort_by_time;
  max_images = pos 1;
  trim = λ s. s;
  marshal = λ v. [];
  unmarshal = λ b. end;
  calls = silent;
  handoff = record { prompt = []; model = []; cache_enabled = false; max_images = pos 1 };
  api_key = [];
  times = λ n. (0, 0);
}

abbrev image : Json
image = obj (field (codes "type") (str (codes "image")) end)

abbrev two_images : Fields
two_images =
    field (codes "messages")
      (arr (cons (obj (field (codes "content") (arr (cons image (cons image nil))) end)) nil)) end

not_needed : needs_vision_handoff empty_catalog (resolved_of one_image (codes "coder")) ≡ false
unfolding needs_vision_handoff resolved_of find_model
not_needed = refl

prepare_model_example :
    (member model_key (prepare_openai one_image (codes "coder") two_images none).0
      ≡ some (str (resolved_of one_image (codes "coder"))))
    × (member model_key (prepare_anthropic one_image (codes "coder") two_images none).0
        ≡ some (str (resolved_of one_image (codes "coder"))))
prepare_model_example = prepare_model one_image (codes "coder") two_images none

prepare_images_example :
    (length (walk_payload typed_image (prepare_openai one_image (codes "coder") two_images none).0)
      ≤ 1)
    × (length
          (walk_payload typed_image (prepare_anthropic one_image (codes "coder") two_images none).0)
        ≤ 1)
prepare_images_example =
    prepare_images one_image 1 (codes "coder") two_images none not_needed refl (omega arith)
      sort_by_time-Sorts
