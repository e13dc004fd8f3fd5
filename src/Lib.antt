-- ===== src/Lib.antt =====
-- The Pixel2Play policy: a transformer that watches a screen, or the cameras of a robot, and acts.
-- What is modelled is the program logic in Python around the network: how actions become tokens and
-- tokens actions, how videos and recordings of robots become samples, and how the caches of the
-- transformer move with time.
--
-- The parts and their files:
-- * ActionMapping is elefant/data/action_mapping.py. Keymap has the tables of keys and buttons,
--   Mouse the bins of mouse motion, Encode `action_to_tensor` and the shapes, Decode
--   `tensor_to_action`. Bins, Motion, Names and Shapes have the lemmas, RoundTrip puts both
--   directions together.
-- * VideoProto is the preprocessing of one video in elefant/data/video_proto_dataset.py: Chunks has
--   `_preprocess_example`, which hands each chunk to the `annotate_frames` of a parser. Calls and Coverage are
--   about videos of the configured size, Resize about the others.
-- * Annotation is that parser, elefant/data/action_label_video_proto_dataset.py, which uses
--   `action_to_tensor` for each row. Parser has its code, Rows and Labels what it gives.
-- * Lerobot is elefant/data/lerobot_latent_dataset.py: Index for `MultiLatentLeRobotDataset`,
--   Meta and Usable for the metadata of segments,
--   Channels and Scatter for the channels of an action, Sample, Windows and Fixed for the samples of a
--   fixed length, Rebase and Rebased for their actions relative to the first, Alignment and Groups for the actions of each frame.
-- * KvCache is elefant/policy_model/kv_cache.py; Window is about the steps that a cache shows.
-- * Attention is the mask, the lengths and the output indices of
--   elefant/policy_model/policy_transformer.py: Mask has the code, Kinds a description of it by kinds
--   of tokens, Visible and Outputs how they agree, Causality what an output depends on through
--   all layers.
-- * DimensionConverter is elefant/policy_model/utils.py.
-- * Server is the framing of messages in elefant/inference/unix_socket_server.py; Frames has the
--   round trip.
-- * RobotTwin is elefant/evaluation/robotwin: Floats, Pose and Adapter are common.py, with the poses
--   of two arms and `RobotActionAdapter`; Sequence and Step are
--   `RobotTwinSequenceInferenceState` and Serve is `OpenP2PRobotTwinPolicy.infer` in server.py.
--   Lengths, Smoothing, Channels, Rebasing, Stabilizing, Histories, WarmStart and Acting show function by function that
--   the code returns arrays of the right sizes; Rolling, Steady, Observing and Episode what a
--   state shows; Compact, Sanitized and Memory are about single parts.
-- * Inference is elefant/policy_model/inference.py: Base is the interface of a policy, which Cached
--   (`KVCacheInferenceState`) and Full (`FullInferenceState`) fill, with Text for the embeddings;
--   Requests is the thread of `_handle_requests` as steps between those of the others. Timing has
--   the metrics and the choice of a device. Replies, Stopping and Ending are about Requests,
--   History about Full, Devices about the choice.
-- * Training is about a run of elefant/policy_model/stage3_finetune.py and its configuration in
--   elefant/policy_model/config.py: Gpus has `_select_training_gpus` and Selected what it chooses,
--   Config has the channels of `DatasetConfig`, which Agreement compares with those of Lerobot, Repeat has
--   `_reshape_tensor_with_repeat`, Resume `_validate_resume_checkpoint_compatibility` and
--   Compatible the checkpoints that it accepts. Origin has the loop of
--   `_maybe_initialize_from_origin_checkpoint`, Adapted and Initialized what it takes over.
-- * Common has what they share; Examples runs the code on concrete inputs.
--
-- The state of an object is a record with the source's fields; an operation takes it and returns
-- the new one, with the exception that it may raise as a value of `Result`. A tensor is the list of
-- its rows along the dimension that the code works on. Floats of the mouse bins are whole numbers
-- of tenths of a pixel; sums of 64-bit tensors wrap.
--
-- The loop over the chunks of a video runs on fuel of one more than the number of frames, which
-- is enough when `T` is positive: each round moves on by `T`. With `T` of 0 the source's loop
-- does not end. All other loops are structural recursion.
--
-- A step of the thread that handles requests is one access to the queue or one call of the policy; the
-- others put frames on the queue, set the text or shut down at any point between.
--
-- Code of other packages is a parameter: `torch.bucketize`, the draws of random numbers, the
-- decoder of a video, the operations of torch on text embeddings, and 32-bit floats with the
-- rotations of scipy (Floats). What is assumed of them is what their documentation says, in the
-- records Bucketize, TruncNormal, Rng, Draw, Torch, QuaternionLaws and FiniteLaws. The layers of the
-- network are a parameter too: Model and Network have its predictions, with the sizes that
-- elefant/policy_model/stage3_finetune.py asserts of them in IsModel; it may raise, which a step
-- passes on. So are the probe of a GPU and
-- what nvidia-smi says of them, and `repeat` and `to` of a tensor (Ops).
--
-- Not modelled: the layers of the network, the preparation of images, files, sockets and processes,
-- the loop of training, the asynchronous tasks of a connection, and the client that drives the
-- simulator.
pub mod Common
pub mod ActionMapping
pub mod KvCache
pub mod DimensionConverter
pub mod VideoProto
pub mod Annotation
pub mod Lerobot
pub mod Attention
pub mod Server
pub mod RobotTwin
pub mod Inference
pub mod Training
pub mod Examples
