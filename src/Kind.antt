-- ===== src/Kind.antt =====
-- proto/proto/messages.proto: the values of the protobuf plane, which prost turns into Rust types.
use tarwyn.Base.{ℕ, Bool, Option, List, Text}
use tarwyn.Base.Bytes.{Bytes}
use tarwyn.Base.Int.{ℤ}

-- `Coordinate`
pub record Coordinate : Type 0 where
  pub x : ℕ
  pub y : ℕ

pub record ControlPoint : Type 0 where
  pub x : ℕ
  pub y : ℕ
  pub rotation_degrees : Option ℕ

-- `BezierCurve`: its control points.
abbrev pub BezierCurve : Type 0
BezierCurve = List ControlPoint

-- `TraversalOptions`: a double is its bit pattern, and the direction the number on the wire.
pub record TraversalOptions : Type 0 where
  pub meters_per_second : Option ℕ
  pub final_rotation_degrees : Option ℕ
  pub acceleration_meters_per_second : Option ℕ
  pub face_nearest_reef_april_tag : Option Bool
  pub end_face_nearest_reef_april_tag_path_threshold_percentage : Option ℕ
  pub face_nearest_reef_april_tag_direction : Option ℤ
  pub final_rotation_turn_speed_factor : Option ℕ
  pub start_face_nearest_reef_april_tag_path_threshold_percentage : Option ℕ
  pub snap_to_nearest_april_tag : Option Bool
  pub april_tag_rotation_degrees_turn_speed_factor_per_step : Option ℕ

pub record BezierCurves : Type 0 where
  pub curves : List BezierCurve
  pub options : Option TraversalOptions

-- `supported_values::Kind`
pub data Kind : Type 0 where
  string : Text → Kind
  int32 : ℤ → Kind
  int64 : ℤ → Kind
  uint32 : ℕ → Kind
  uint64 : ℕ → Kind
  bool : Bool → Kind
  double : ℕ → Kind
  float : ℕ → Kind
  bytes : Bytes → Kind
  string_list : List Text → Kind
  float_list : List ℕ → Kind
  bytes_list : List Bytes → Kind
  bool_list : List Bool → Kind
  double_list : List ℕ → Kind
  integer_list : List ℤ → Kind
  long_list : List ℤ → Kind
  coordinate_list : List Coordinate → Kind
  bezier_curve : BezierCurve → Kind
  bezier_curves : BezierCurves → Kind
  bezier_curves_list : List BezierCurves → Kind

-- prost's writers and readers of the messages that travel inside a value.
pub record Prost : Type 0 where
  pub write_bytes_list : List Bytes → Bytes
  pub read_bytes_list : Bytes → Option (List Bytes)
  pub write_coordinates : List Coordinate → Bytes
  pub read_coordinates : Bytes → Option (List Coordinate)
  pub write_curve : BezierCurve → Bytes
  pub write_curves : BezierCurves → Bytes
  pub read_curves : Bytes → Option BezierCurves
  pub write_curves_list : List BezierCurves → Bytes
