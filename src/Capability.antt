-- ===== src/Capability.antt =====
-- The capabilities: their names, src/capabilities/names.ts, and how far each may go, from the catalog
-- src/capabilities/catalog.ts.
use hhc_line_function_bot.Prelude.{
  String, ◌≡◌, refl, ap, Bool, Option, none, some, ◌==◌, if◌then◌else◌,
}

pub data CapabilityName : Type 0 where
  download_weekly_paper update_own_profile find_ppt_slides query_schedule : CapabilityName
  query_knowledge save_schedule find_sheet_music find_resource query_wikipedia : CapabilityName
  query_public_web save_memory save_resource retrieve_memory : CapabilityName

pub CapabilityName-discrete : Discrete CapabilityName
CapabilityName-discrete = hlevel

abbrev pub capability_text : CapabilityName → String
capability_text download_weekly_paper = "download_weekly_paper"
capability_text update_own_profile = "update_own_profile"
capability_text find_ppt_slides = "find_ppt_slides"
capability_text query_schedule = "query_schedule"
capability_text query_knowledge = "query_knowledge"
capability_text save_schedule = "save_schedule"
capability_text find_sheet_music = "find_sheet_music"
capability_text find_resource = "find_resource"
capability_text query_wikipedia = "query_wikipedia"
capability_text query_public_web = "query_public_web"
capability_text save_memory = "save_memory"
capability_text save_resource = "save_resource"
capability_text retrieve_memory = "retrieve_memory"

-- Capability names are texts, and compared as texts.
abbrev pub same_capability : CapabilityName → CapabilityName → Bool
same_capability a b = capability_text a == capability_text b

pub data SideEffectLevel : Type 0 where
  read write admin destructive : SideEffectLevel

-- `getFunctionDefinition(name)?.sideEffectLevel`: the catalog has a definition of every name.
unfoldable pub side_effect_level : CapabilityName → Option SideEffectLevel
side_effect_level update_own_profile = some write
side_effect_level save_schedule = some write
side_effect_level save_memory = some write
side_effect_level save_resource = some write
side_effect_level _ = some read

-- The capability of a text, by which the texts of two capabilities differ.
capability_of : String → Option CapabilityName
capability_of t =
    if t == "download_weekly_paper"
    then some download_weekly_paper
    else if t == "update_own_profile"
    then some update_own_profile
    else if t == "find_ppt_slides"
    then some find_ppt_slides
    else if t == "query_schedule"
    then some query_schedule
    else if t == "query_knowledge"
    then some query_knowledge
    else if t == "save_schedule"
    then some save_schedule
    else if t == "find_sheet_music"
    then some find_sheet_music
    else if t == "find_resource"
    then some find_resource
    else if t == "query_wikipedia"
    then some query_wikipedia
    else if t == "query_public_web"
    then some query_public_web
    else if t == "save_memory"
    then some save_memory
    else if t == "save_resource"
    then some save_resource
    else if t == "retrieve_memory"
    then some retrieve_memory
    else none

capability_of-text : (f : CapabilityName) → capability_of (capability_text f) ≡ some f
unfolding capability_of
capability_of-text download_weekly_paper = refl
capability_of-text update_own_profile = refl
capability_of-text find_ppt_slides = refl
capability_of-text query_schedule = refl
capability_of-text query_knowledge = refl
capability_of-text save_schedule = refl
capability_of-text find_sheet_music = refl
capability_of-text find_resource = refl
capability_of-text query_wikipedia = refl
capability_of-text query_public_web = refl
capability_of-text save_memory = refl
capability_of-text save_resource = refl
capability_of-text retrieve_memory = refl

pub capability_text_injective :
    (f g : CapabilityName) → capability_text f ≡ capability_text g → f ≡ g
capability_text_injective f g e =
    cc (capability_of-text f, capability_of-text g, ap capability_of e)
