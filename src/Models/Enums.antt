-- ===== src/Models/Enums.antt =====
-- backend/app/models/enums.py
use recon_ledger.Prelude.{
  Bool, true, false, Option, none, some, ◌≡◌, refl, Text, codes, text_eq, if◌then◌else◌,
}

pub data TargetType : Type 0 where
  domain ip cidr organization : TargetType

pub data JobStatus : Type 0 where
  queued running completed completed_with_warnings failed canceled : JobStatus

pub data CollectorStatus : Type 0 where
  queued running done failed skipped_no_key not_applicable interrupted : CollectorStatus

pub data Category : Type 0 where
  network_footprint technology_stack human_layer leaked_data : Category

pub data Confidence : Type 0 where
  low medium high : Confidence

-- `status in TERMINAL_JOB_STATUSES`
abbrev pub is_terminal_job : JobStatus → Bool
is_terminal_job JobStatus.queued = false
is_terminal_job JobStatus.running = false
is_terminal_job _ = true

-- `status in TERMINAL_COLLECTOR_STATUSES`
abbrev pub is_terminal_collector : CollectorStatus → Bool
is_terminal_collector CollectorStatus.queued = false
is_terminal_collector CollectorStatus.running = false
is_terminal_collector CollectorStatus.interrupted = false
is_terminal_collector _ = true

-- `status == JobStatus.QUEUED`
abbrev pub is_queued : JobStatus → Bool
is_queued JobStatus.queued = true
is_queued _ = false

-- `status == JobStatus.RUNNING`
abbrev pub is_running : JobStatus → Bool
is_running JobStatus.running = true
is_running _ = false

-- `status == CollectorStatus.RUNNING`
abbrev pub is_running_collector : CollectorStatus → Bool
is_running_collector CollectorStatus.running = true
is_running_collector _ = false

-- `status in [CollectorStatus.QUEUED, CollectorStatus.INTERRUPTED]`
abbrev pub is_pending : CollectorStatus → Bool
is_pending CollectorStatus.queued = true
is_pending CollectorStatus.interrupted = true
is_pending _ = false

-- `status == CollectorStatus.DONE`
abbrev pub is_done : CollectorStatus → Bool
is_done CollectorStatus.done = true
is_done _ = false

-- `status == CollectorStatus.FAILED`
abbrev pub is_failed : CollectorStatus → Bool
is_failed CollectorStatus.failed = true
is_failed _ = false

-- `target_type.value`
abbrev pub target_type_value : TargetType → Text
target_type_value TargetType.domain = codes "domain"
target_type_value TargetType.ip = codes "ip"
target_type_value TargetType.cidr = codes "cidr"
target_type_value TargetType.organization = codes "organization"

-- `a is b` on target types
abbrev pub same_target_type : TargetType → TargetType → Bool
same_target_type TargetType.domain TargetType.domain = true
same_target_type TargetType.ip TargetType.ip = true
same_target_type TargetType.cidr TargetType.cidr = true
same_target_type TargetType.organization TargetType.organization = true
same_target_type _ _ = false

-- `category.value`
abbrev pub category_value : Category → Text
category_value Category.network_footprint = codes "network_footprint"
category_value Category.technology_stack = codes "technology_stack"
category_value Category.human_layer = codes "human_layer"
category_value Category.leaked_data = codes "leaked_data"

-- `Category(value)`, `none` for its ValueError
unfoldable pub category_of : Text → Option Category
unfolding text_eq
category_of s =
    if text_eq s (codes "network_footprint")
    then some Category.network_footprint
    else if text_eq s (codes "technology_stack")
    then some Category.technology_stack
    else if text_eq s (codes "human_layer")
    then some Category.human_layer
    else if text_eq s (codes "leaked_data")
    then some Category.leaked_data
    else none

-- `confidence.value`
abbrev pub confidence_value : Confidence → Text
confidence_value Confidence.low = codes "low"
confidence_value Confidence.medium = codes "medium"
confidence_value Confidence.high = codes "high"

-- `Confidence(value)`, `none` for its ValueError
unfoldable pub confidence_of : Text → Option Confidence
unfolding text_eq
confidence_of s =
    if text_eq s (codes "low")
    then some Confidence.low
    else if text_eq s (codes "medium")
    then some Confidence.medium
    else if text_eq s (codes "high")
    then some Confidence.high
    else none

pub category_of-value : (c : Category) → category_of (category_value c) ≡ some c
unfolding category_of
category_of-value Category.network_footprint = refl
category_of-value Category.technology_stack = refl
category_of-value Category.human_layer = refl
category_of-value Category.leaked_data = refl

pub confidence_of-value : (c : Confidence) → confidence_of (confidence_value c) ≡ some c
unfolding confidence_of
confidence_of-value Confidence.low = refl
confidence_of-value Confidence.medium = refl
confidence_of-value Confidence.high = refl
