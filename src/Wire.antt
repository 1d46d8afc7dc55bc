-- ===== src/Wire.antt =====
-- The protobuf wire format as the generated codecs use it (crd-getting-started/pkg/apis/greeting/v1/
-- generated.pb.go and its twins, which repeat the same helpers).
pub mod Result
pub mod Slice
pub mod Varint
pub mod Skip
pub mod Unmarshal
pub mod Buffer
pub mod Message
pub mod Field
pub mod Repeated
mod Runs
