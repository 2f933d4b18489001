-- ===== src/Cas/S3Store/Laws.antt =====
-- The store over S3 keeps what the interface `Store` promises, under the hashes that are ordinary names.
use aws_build_farm.GoText.Path.Plain.{IsPlain}
use aws_build_farm.Proto.{ActionResult, Codec}
use aws_build_farm.Cas.Interface.{Store}
use aws_build_farm.Cas.S3.{S3}
use aws_build_farm.Cas.S3Store.Keys.{valid-IsPlain}
use aws_build_farm.Cas.S3Store.Reading
use aws_build_farm.Cas.S3Store.Writing
use aws_build_farm.Cas.S3Store.{
  S3Store, contains, reader, get, put_stream, put, get_action_result, put_action_result,
}

module _ (s3 : S3) (c : S3Store) (codec : Codec ActionResult) where
  abbrev pub s3_store : Store
  s3_store = record {
    State = s3.State;
    contains = contains s3 c;
    get = get s3 c;
    reader = reader s3 c;
    put = put s3 c;
    put_stream = put_stream s3 c;
    get_action_result = get_action_result s3 c codec;
    put_action_result = put_action_result s3 c codec;
    blob = Reading.blob s3 c;
    cached = Writing.cached s3 c codec;
    IsName = IsPlain;
    valid_IsName = valid-IsPlain;
    contains_ok = Reading.contains_ok s3 c;
    get_ok = Reading.get_ok s3 c;
    get_not_found = Reading.get_not_found s3 c;
    get_no_panic = Reading.get_no_panic s3 c;
    get_action_result_no_panic = Writing.get_action_result_no_panic s3 c codec;
    reader_ok = Reading.reader_ok s3 c;
    reader_fits = Reading.reader_fits s3 c;
    put_ok = Writing.put_ok s3 c;
    put_any = Writing.put_any s3 c;
    put_stream_ok = Writing.put_stream_ok s3 c;
    put_stream_any = Writing.put_stream_any s3 c;
    get_action_result_ok = Writing.get_action_result_ok s3 c codec;
    get_action_result_not_found = Writing.get_action_result_not_found s3 c codec;
    put_action_result_ok = Writing.put_action_result_ok s3 c codec;
    put_action_result_any = Writing.put_action_result_any s3 c codec;
    put_action_result_blob = Writing.put_action_result_blob s3 c codec;
  }
